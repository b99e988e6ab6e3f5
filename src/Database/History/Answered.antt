-- ===== src/Database/History/Answered.antt =====
-- The clients that ask, that wait and that are answered, counted over whole histories.
use redis_cpp.Prelude.{ℕ, ◌+◌, ◌≡◌, refl, Bool, List, [], ◌∷◌, arith, if◌then◌else◌}
use redis_cpp.Prelude.Bytes.{Bytes, bytes_eq}
use redis_cpp.Prelude.Outcome.{Ensures, Ensures-of_ok, Ensures-bind, Ensures-weaken}
use redis_cpp.Database
use redis_cpp.Database.Waiters.{async_blpop-Queued}
use redis_cpp.Database.Waiters.Conserved.{
  one, waiting, answered, notify-conserves, timeout-conserves, blpop-conserves,
}
use redis_cpp.Database.{Database, Floating, Calls, ServerConfig, queue}
use redis_cpp.Database.History.{
  Op, set_value, on_expire, set_list_value, set_list, set_list_left, remove_list_value,
  remove_list_values, async_blpop, notify_list_push, on_timeout, subject, step, run,
}
use redis_cpp.Database.Quiet.{
  set_value-waiters, on_expire-waiters, set_list_value-waiters, set_list-waiters,
  set_list_left-waiters, remove_list_value-waiters, remove_list_values-waiters,
}

module _ {F : Floating} {H : Type 0} (mine : H → Bool) (k : Bytes) where
  -- How many of mine an operation has ask for an element of the list under `k`.
  abbrev pub asks : Op F H → ℕ
  asks (async_blpop key timeout handler) = if bytes_eq key k then one mine handler else 0
  asks _ = 0

  abbrev pub asked : List (Op F H) → ℕ
  asked [] = 0
  asked (op ∷ ops) = asks op + asked ops

module _ {H : Type 0} (mine : H → Bool) (k : Bytes) where
  -- How many of mine were called for `k`.
  abbrev pub answers : List (Bytes × Calls H) → ℕ
  answers [] = 0
  answers ((key, calls) ∷ log) = (if bytes_eq key k then answered mine calls else 0) + answers log

  -- An operation that leaves the queues and calls nobody.
  idle :
      (db db' : Database H) (key : Bytes)
      → db'.waiters ≡ db.waiters
      → waiting mine (queue db' k) + (if bytes_eq key k then answered mine [] else 0)
        ≡ 0 + waiting mine (queue db k)
  unfolding answered
  idle db db' key e = rw e (ground arith)

module _ {F : Floating} {H : Type 0} (mine : H → Bool) (k : Bytes) where
  step-conserves :
      (op : Op F H) (db : Database H)
      → Ensures
          (λ r.
            waiting mine (queue r.0 k) + (if bytes_eq (subject op) k then answered mine r.1 else 0)
            ≡ asks mine k op + waiting mine (queue db k))
          (step op db)
  unfolding subject step
  step-conserves (async_blpop key timeout handler) db =
      Ensures-of_ok _ (Database.async_blpop F db key timeout handler) λ r h.
        blpop-conserves mine db r.0 key k handler r.1
          (async_blpop-Queued F db r.0 key timeout handler r.1 (db.list_store key) refl h)
  step-conserves (notify_list_push key) db =
      Ensures-of_ok _ (Database.notify_list_push db key)
        λ r h. omega (arith, notify-conserves mine db r.0 key k r.1 (db.waiters key) refl h)
  step-conserves (on_timeout key id ec) db = omega (arith, timeout-conserves mine db key k id ec)
  step-conserves (set_value key value time) db =
      idle mine k db (Database.set_value db key value time) key
        (set_value-waiters db key value time)
  step-conserves (on_expire key ec) db =
      idle mine k db (Database.on_expire key ec db) key (on_expire-waiters db key ec)
  step-conserves (set_list_value key value) db =
      idle mine k db (Database.set_list_value db key value).0 key
        (set_list_value-waiters db key value)
  step-conserves (set_list key values) db =
      idle mine k db (Database.set_list db key values).0 key (set_list-waiters db key values)
  step-conserves (set_list_left key values) db =
      idle mine k db (Database.set_list_left db key values).0 key
        (set_list_left-waiters db key values)
  step-conserves (remove_list_value key) db =
      Ensures-bind _ _ (Database.remove_list_value db key) _
        (remove_list_value-waiters db key (db.list_store key) refl)
        (λ r e. idle mine k db r.0 key e)
  step-conserves (remove_list_values key idx) db =
      Ensures-bind _ _ (Database.remove_list_values db key idx) _
        (remove_list_values-waiters db key idx (db.list_store key) refl)
        (λ r e. idle mine k db r.0 key e)

  run-conserves :
      (ops : List (Op F H)) (db : Database H)
      → Ensures
          (λ r.
            waiting mine (queue r.0 k) + answers mine k r.1
            ≡ asked mine k ops + waiting mine (queue db k))
          (run ops db)
  unfolding run
  run-conserves [] db = omega arith
  run-conserves (op ∷ ops) db =
      Ensures-bind _ _ (step op db) _ (step-conserves op db) λ r h.
        Ensures-bind _ _ (run ops r.0) _ (run-conserves ops r.0) λ r' h'. omega (arith, h, h')

  -- After any operations in a row that all return, on a new database: for every key and every class
  -- of handlers, the handlers of the class that wait in the key's queue, and the calls of such
  -- handlers by the operations on the key, are together as many as were given to `asyncBlpop` for it.
  pub answered-asked :
      (config : ServerConfig) (ops : List (Op F H))
      → Ensures
          (λ (db, log). waiting mine (queue db k) + answers mine k log ≡ asked mine k ops)
          (run ops (Database.create config))
  unfolding waiting Database.create
  answered-asked config ops =
      Ensures-weaken _ _ (run ops (Database.create config)) (λ r h. omega (arith, h))
        (run-conserves ops (Database.create config))
