-- ===== src/Database/Values.antt =====
-- Keys with a value, and their expiry.
use redis_cpp.Prelude.{
  ◌≡◌, Bool, true, false, none, [], ◌&&◌, not, Bool-cases, inl, inr, arith, if◌then◌else◌,
}
use redis_cpp.Prelude.Int.{ℤ, pos, ltb_ℤ}
use redis_cpp.Prelude.Bytes.{Bytes, bytes_eq, bytes_eq_sound}
use redis_cpp.Prelude.Outcome.{ok, Ensures}
use redis_cpp.Database.Table.{value_or, assign, insert, erase}
use redis_cpp.Database.{Database, Floating, get_value, set_value, set_value_timed, on_expire}

module _ {H : Type 0} where
  -- After `setValue` every key reads as before, but for a key that had no value, which reads as the
  -- new one: a value that is there is never replaced.
  pub get_value-set_value :
      (db : Database H) (key value : Bytes) (time : ℤ) (j : Bytes)
      → get_value (set_value db key value time) j
        ≡ (if bytes_eq key j then value_or (db.kv_store key) value else get_value db j)
  unfolding get_value set_value insert assign
  get_value-set_value db key value time j = ground (arith, bytes_eq_sound key j)

  -- What holds of a value that is stored.
  pub set_value_timed-Ensures :
      (F : Floating) (P : Database H → Type 0) (db : Database H) (key value : Bytes) (time : ℤ)
      → P (set_value db key value time)
      → Ensures P (set_value_timed F db key value time)
  unfolding set_value_timed
  set_value_timed-Ensures F P db key value time h =
      elim (Bool-cases (ltb_ℤ (pos 0) time && not (F.on_clock time))) [
        | inl e ↦ rw e tt
        | inr e ↦ rw e h
      ]

  pub set_value_timed-on_clock :
      (F : Floating) (db : Database H) (key value : Bytes) (time : ℤ)
      → F.on_clock time ≡ true
      → set_value_timed F db key value time ≡ ok (set_value db key value time)
  unfolding set_value_timed
  set_value_timed-on_clock F db key value time h = ground (arith, h)

  -- After an expiry the key reads as the empty string, and every other key as before; a cancelled
  -- timer changes nothing.
  pub get_value-on_expire :
      (db : Database H) (key : Bytes) (ec : Bool) (j : Bytes)
      → get_value (on_expire key ec db) j
        ≡ (if ec then get_value db j else if bytes_eq key j then [] else get_value db j)
  unfolding get_value on_expire erase
  get_value-on_expire db key ec j = ground arith

  -- A value is written and expires: the key is then as it was if it had no value.
  pub on_expire-set_value :
      (db : Database H) (key value : Bytes) (time : ℤ) (j : Bytes)
      → db.kv_store key ≡ none
      → (on_expire key false (set_value db key value time)).kv_store j ≡ db.kv_store j
  unfolding on_expire set_value insert assign erase
  on_expire-set_value db key value time j h = ground (arith, bytes_eq_sound key j)
