-- ===== src/Database/Waiters/Held.antt =====
-- A class of handlers of which at most one waits: under which key, if at all.
use redis_cpp.Prelude.{
  ℕ, zero, suc, true, ◌+◌, ◌≤◌, ◌≡◌, ◌==◌, Bool, Option, none, some, arith, Bool-cases, inl, inr,
  if◌then◌else◌,
}
use redis_cpp.Prelude.Bytes.{Bytes, bytes_eq, bytes_eq_refl, bytes_eq_sound}
use redis_cpp.Database.Waiters.Conserved.{waiting}
use redis_cpp.Database.{Database, queue}

abbrev pub tokens : Option Bytes → ℕ
tokens none = 0
tokens (some key) = 1

tokens-le_one : (place : Option Bytes) → tokens place ≤ 1
tokens-le_one none = omega arith
tokens-le_one (some key) = omega arith

abbrev at_key : Bytes → Bytes → ℕ → ℕ
at_key key k n = if bytes_eq key k then n else 0

module _ {H : Type 0} (mine : H → Bool) where
  -- None of mine waits, or one does, under the key.
  abbrev pub Held : Database H → Option Bytes → Type 0
  Held db none = (k : Bytes) → waiting mine (queue db k) ≡ 0
  Held db (some key) = (k : Bytes) → waiting mine (queue db k) ≡ at_key key k 1

  -- What an operation on `key` does to the queues, if `asked` of mine ask and `called` are called.
  abbrev pub Balanced : Database H → Database H → Bytes → ℕ → ℕ → Type 0
  Balanced db db' key asked called =
      (k : Bytes)
      → waiting mine (queue db' k) + at_key key k called
        ≡ at_key key k asked + waiting mine (queue db k)

  -- Where mine waits after such an operation.
  abbrev pub Settled : Database H → Option Bytes → ℕ → ℕ → Type 0
  Settled db' place asked called =
      (place' : Option Bytes) × Held db' place' × (called + tokens place' ≡ asked + tokens place)

  pub Held-same :
      (db db' : Database H) (place : Option Bytes)
      → db'.waiters ≡ db.waiters
      → Held db place
      → Held db' place
  Held-same db db' none e h = λ k. rw e (h k)
  Held-same db db' (some key) e h = λ k. rw e (h k)

  module _ (db db' : Database H) (key : Bytes) where
    asks-Settled :
        (called : ℕ) → Held db none → Balanced db db' key 1 called → Settled db' none 1 called
    asks-Settled called h b = elim (Bool-cases (called == 0)) [
      | inl e ↦ (some key, (λ k. ground (arith, h k, b k)), ground arith)
      | inr e ↦ (
        none,
        (λ k. ground (arith, h k, b k, h key, b key, bytes_eq_refl key)),
        ground (arith, h key, b key, bytes_eq_refl key),
      )
    ]

    pub Balanced-Settled :
        (place : Option Bytes) (asked called : ℕ)
        → asked + tokens place ≤ 1
        → Held db place
        → Balanced db db' key asked called
        → Settled db' place asked called
    Balanced-Settled none zero called le h b =
        (none, (λ k. ground (arith, h k, b k)), ground (arith, h key, b key, bytes_eq_refl key))
    Balanced-Settled none (suc zero) called le h b = asks-Settled called h b
    Balanced-Settled none (suc (suc n)) called le h b = absurd (omega arith)
    Balanced-Settled (some j) zero called le h b = elim (Bool-cases (called == 0)) [
      | inl e ↦ (some j, (λ k. ground (arith, h k, b k)), ground arith)
      | inr e ↦
          let one : called ≡ 1 = ground (arith, h key, b key, bytes_eq_refl key) in
          let met : bytes_eq j key ≡ true = ground (arith, h key, b key, bytes_eq_refl key) in
          (none, (λ k. ground (arith, h k, b k, bytes_eq_sound j key met)), omega arith)
    ]
    Balanced-Settled (some j) (suc n) called le h b = absurd (omega arith)

    -- Nobody asks.
    pub calls-Settled :
        (place : Option Bytes) (called : ℕ)
        → Held db place
        → ((k : Bytes)
            → waiting mine (queue db' k) + at_key key k called ≡ waiting mine (queue db k))
        → Settled db' place 0 called
    calls-Settled place called h b =
        Balanced-Settled place 0 called (omega (arith, tokens-le_one place)) h
          (λ k. ground (arith, b k))
