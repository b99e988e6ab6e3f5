-- ===== src/Database/Table.antt =====
-- `std::unordered_map<std::string, V>`, as a function from keys; no code depends on its order.
use redis_cpp.Prelude.{◌≡◌, Option, none, some, if◌then◌else◌}
use redis_cpp.Prelude.Bytes.{Bytes, bytes_eq, bytes_eq_refl}

module _ {ℓ} where
  abbrev pub Map : Type ℓ → Type ℓ
  Map V = Bytes → Option V

module _ {ℓ} {V : Type ℓ} where
  abbrev pub empty : Map V
  empty k = none

  -- `m[key] = value`.
  unfoldable pub assign : Map V → Bytes → V → Map V
  assign m key value j = if bytes_eq key j then some value else m j

  -- `m.insert({key, value})`: a key that is there keeps its value.
  unfoldable pub insert : Map V → Bytes → V → Map V
  unfolding assign
  insert m key value = elim (m key) [ none ↦ assign m key value | some old ↦ m ]

  unfoldable pub erase : Map V → Bytes → Map V
  erase m key j = if bytes_eq key j then none else m j

  -- The value, or `default`.
  abbrev pub value_or : Option V → V → V
  value_or none default = default
  value_or (some v) default = v

  pub assign_self : (m : Map V) (key : Bytes) (v : V) → assign m key v key ≡ some v
  unfolding assign
  assign_self m key v = rw (bytes_eq_refl key)
