-- ===== src/Database/Quiet.antt =====
-- The operations that leave the queues of blocked clients as they were.
use redis_cpp.Prelude.{◌≡◌, refl, Bool, Option, none, some, List, [], ◌∷◌, arith}
use redis_cpp.Prelude.Int.{ℤ, pos_part}
use redis_cpp.Prelude.Bytes.{Bytes}
use redis_cpp.Prelude.Outcome.{Ensures, Ensures-of_ok, Ensures-bind}
use redis_cpp.Database
use redis_cpp.Database.Vectors.{pop_front, pop_fronts}
use redis_cpp.Database.{Database, Floating, Calls, ServerConfig, queue}

module _ {H : Type 0} where
  pub set_value-waiters :
      (db : Database H) (key value : Bytes) (time : ℤ)
      → (Database.set_value db key value time).waiters ≡ db.waiters
  unfolding Database.set_value
  set_value-waiters db key value time = ground arith

  pub on_expire-waiters :
      (db : Database H) (key : Bytes) (ec : Bool)
      → (Database.on_expire key ec db).waiters ≡ db.waiters
  unfolding Database.on_expire
  on_expire-waiters db key ec = ground arith

  pub set_list_value-waiters :
      (db : Database H) (key value : Bytes)
      → (Database.set_list_value db key value).0.waiters ≡ db.waiters
  unfolding Database.set_list_value Database.find_list_store_value
  set_list_value-waiters db key value = ground arith

  pub set_list-waiters :
      (db : Database H) (key : Bytes) (values : List Bytes)
      → (Database.set_list db key values).0.waiters ≡ db.waiters
  unfolding Database.set_list Database.find_list_store_value
  set_list-waiters db key values = ground arith

  pub set_list_left-waiters :
      (db : Database H) (key : Bytes) (values : List Bytes)
      → (Database.set_list_left db key values).0.waiters ≡ db.waiters
  unfolding Database.set_list_left
  set_list_left-waiters db key values = refl

  pub remove_list_value-waiters :
      (db : Database H) (key : Bytes) (vec : Option (List Bytes))
      → db.list_store key ≡ vec
      → Ensures (λ r. r.0.waiters ≡ db.waiters) (Database.remove_list_value db key)
  unfolding Database.remove_list_value Database.find_list_store_value pop_front
  remove_list_value-waiters db key none e = rw (e, Ensures) refl
  remove_list_value-waiters db key (some []) e = rw (e, Ensures) tt
  remove_list_value-waiters db key (some (x ∷ vec)) e = rw (e, Ensures) refl

  pub remove_list_values-waiters :
      (db : Database H) (key : Bytes) (idx : ℤ) (vec : Option (List Bytes))
      → db.list_store key ≡ vec
      → Ensures (λ r. r.0.waiters ≡ db.waiters) (Database.remove_list_values db key idx)
  unfolding Database.remove_list_values Database.find_list_store_value
  remove_list_values-waiters db key idx none e = rw (e, Ensures) refl
  remove_list_values-waiters db key idx (some vec) e =
      rw (e, Ensures)
        (Ensures-bind (λ r. Unit {0}) _ (pop_fronts (pos_part idx) vec) _
          (Ensures-of_ok _ (pop_fronts (pos_part idx) vec) (λ r h. tt)) (λ r h. refl))
