-- ===== src/Database/Lists.antt =====
-- Lists: what each operation does to the list of every key.
use redis_cpp.Prelude.{
  ℕ, zero, suc, ◌≤◌, ◌≡◌, refl, ap, some, List, [], ◌∷◌, ◌++◌, reverse, length, length-reverse,
  take, drop, leb, arith, if◌then◌else◌,
}
use redis_cpp.Prelude.Int.{pos, to_int_pos, int_max}
use redis_cpp.Prelude.Bytes.{Bytes, bytes_eq, bytes_eq_refl, bytes_eq_sound}
use redis_cpp.Prelude.Outcome.{ok, undefined}
use redis_cpp.Database.Table.{value_or, assign, assign_self}
use redis_cpp.Database.Vectors.{pop_fronts}
use redis_cpp.Database.{Database, set_list, set_list_left, remove_list_value, remove_list_values}

take_all : (xs : List Bytes) → take (length xs) xs ≡ xs
take_all [] = refl
take_all (x ∷ xs) = ap (◌∷◌ x) (take_all xs)

drop_all : (xs : List Bytes) → drop (length xs) xs ≡ []
drop_all [] = refl
drop_all (x ∷ xs) = drop_all xs

pop_fronts-take :
    (n : ℕ) (vec : List Bytes)
    → pop_fronts n vec ≡ (if leb n (length vec) then ok (take n vec, drop n vec) else undefined)
unfolding pop_fronts
pop_fronts-take zero vec = ground arith
pop_fronts-take (suc n) [] = ground arith
pop_fronts-take (suc n) (x ∷ vec) = ground (arith, pop_fronts-take n vec)

module _ {H : Type 0} where
  -- The list of a key; a key without a list has none of its elements.
  abbrev pub list_at : Database H → Bytes → List Bytes
  list_at db key = value_or (db.list_store key) []

  -- `setList` appends the values to the list of its key, returns the new length if that fits an
  -- `int`, and leaves the other lists alone.
  pub set_list_lem :
      (db : Database H) (key : Bytes) (values : List Bytes)
      → length (list_at db key ++ values) ≤ int_max
      → ((j : Bytes)
          → list_at (set_list db key values).0 j
            ≡ (if bytes_eq key j then list_at db key ++ values else list_at db j))
        × ((set_list db key values).1 ≡ pos (length (list_at db key ++ values)))
  unfolding set_list assign
  set_list_lem db key values h = (
    (λ j. ground (arith, bytes_eq_sound key j)),
    ground (arith, to_int_pos (length (list_at db key ++ values)) h, to_int_pos (length values)),
  )

  -- `setListLeft` appends the values to the list of its key and reverses all of it, returns the new
  -- length if that fits an `int`, and leaves the other lists alone.
  pub set_list_left_lem :
      (db : Database H) (key : Bytes) (values : List Bytes)
      → length (reverse (list_at db key ++ values)) ≤ int_max
      → ((j : Bytes)
          → list_at (set_list_left db key values).0 j
            ≡ (if bytes_eq key j then reverse (list_at db key ++ values) else list_at db j))
        × ((set_list_left db key values).1 ≡ pos (length (list_at db key ++ values)))
  unfolding set_list_left assign
  set_list_left_lem db key values h = (
    (λ j. ground (arith, bytes_eq_sound key j)),
    rw (to_int_pos (length (reverse (list_at db key ++ values))) h)
        (ap pos (length-reverse (list_at db key ++ values))),
  )

  -- The loop of `removeListValue` takes as many values from the front as it is asked for, in order,
  -- and leaves the rest; asked for more than there are, it reads the front of an empty vector.
  pub remove_list_values-take :
      (db : Database H) (key : Bytes) (vec : List Bytes) (n : ℕ)
      → db.list_store key ≡ some vec
      → remove_list_values db key (pos n) ≡ (
          if leb n (length vec)
          then ok (record db { list_store = assign db.list_store key (drop n vec) }, take n vec)
          else undefined)
  unfolding remove_list_values
  remove_list_values-take db key vec n h = ground (arith, pop_fronts-take n vec)

  pub set_list-store :
      (db : Database H) (key : Bytes) (values : List Bytes)
      → list_at db key ≡ []
      → (set_list db key values).0.list_store key ≡ some values
  unfolding set_list assign
  set_list-store db key values h = ground (arith, bytes_eq_refl key)

  -- What is pushed on an absent or empty list is removed in the order in which it was pushed, and
  -- leaves the list empty.
  pub remove_list_values-set_list :
      (db : Database H) (key : Bytes) (values : List Bytes)
      → list_at db key ≡ []
      → (db' : Database H) × (remove_list_values
            (set_list db key values).0
            key
            (pos (length values))
          ≡ ok (db', values))
        × (list_at db' key ≡ [])
  remove_list_values-set_list db key values h =
      let db' = (set_list db key values).0 in
      let removed =
        remove_list_values-take db' key values (length values) (set_list-store db key values h) in
      (
        record db' { list_store = assign db'.list_store key (drop (length values) values) },
        ground (arith, removed, take_all values),
        rw (assign_self db'.list_store key (drop (length values) values)) (drop_all values),
      )

  -- The value that empties a list is removed like any other, and the list stays in the store; the
  -- next removal reads the front of the empty vector.
  pub remove_list_value_last :
      (db : Database H) (key val : Bytes)
      → db.list_store key ≡ some (val ∷ [])
      → (db' : Database H) × (remove_list_value db key ≡ ok (db', val))
        × (remove_list_value db' key ≡ undefined)
  unfolding remove_list_value assign
  remove_list_value_last db key val h = (
    record db { list_store = assign db.list_store key [] },
    ground arith,
    ground (arith, bytes_eq_refl key),
  )
