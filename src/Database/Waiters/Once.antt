-- ===== src/Database/Waiters/Once.antt =====
-- A waiter is answered by a push or by its timeout, never by both: the two callbacks race, since a
-- timer that has run out is not cancelled any more.
use redis_cpp.Prelude.{
  ℕ, suc, ◌≡◌, sym, Bool, false, none, some, List, [], ◌∷◌, arith, Option-cases, inl, inr,
}
use mathlib.Core.Path.{subst}
use redis_cpp.Prelude.Bytes.{Bytes, bytes_eq_refl}
use redis_cpp.Prelude.Outcome.{ok}
use redis_cpp.Database.Table.{value_or, assign}
use redis_cpp.Database.Waiters.{InOrder, Rising, take_id-Rising, take_id_above}
use redis_cpp.Database.{Database, Waiter, Calls, queue, take_id, on_timeout, notify_list_push}

module _ {H : Type 0} where
  absent-on_timeout :
      (db : Database H) (key : Bytes) (id : ℕ) (ec : Bool)
      → take_id id (queue db key) ≡ none
      → (on_timeout key id ec db).1 ≡ []
  unfolding on_timeout
  absent-on_timeout db key id ec h = ground arith

  notified-queue :
      (db db' : Database H) (key : Bytes) (calls : Calls H) (w : Waiter H) (rest : List (Waiter H))
      → db.waiters key ≡ some (w ∷ rest)
      → notify_list_push db key ≡ ok (db', calls)
      → queue db' key ≡ rest
  unfolding notify_list_push assign
  notified-queue db db' key calls w rest e h = ground (arith, bytes_eq_refl key)

  -- When a push has served the oldest waiter, the callback of that waiter's timer calls nobody,
  -- whether asio could still cancel it or not.
  pub on_timeout-notify_list_push :
      (db db' : Database H) (key : Bytes) (calls : Calls H) (w : Waiter H) (rest : List (Waiter H))
      (ec : Bool)
      → InOrder db
      → db.waiters key ≡ some (w ∷ rest)
      → notify_list_push db key ≡ ok (db', calls)
      → (on_timeout key w.id ec db').1 ≡ []
  on_timeout-notify_list_push db db' key calls w rest ec v e h =
      let r : Rising 0 (w ∷ rest) db.waiter_count =
        subst (λ q. Rising 0 (value_or q []) db.waiter_count) e (v key) in
      let left : queue db' key ≡ rest = notified-queue db db' key calls w rest e h in
      absent-on_timeout db' key w.id ec (
        subst (λ q. take_id w.id q ≡ none) (sym left)
          (take_id_above w.id (suc w.id) rest db.waiter_count (omega arith) r.1))

  timed_out-queue :
      (db : Database H) (key : Bytes) (id : ℕ)
      → InOrder db
      → take_id id (queue (on_timeout key id false db).0 key) ≡ none
  unfolding on_timeout assign
  timed_out-queue db key id v = elim (Option-cases (take_id id (queue db key))) [
    | inl e ↦ ground (arith, bytes_eq_refl key)
    | inr ((w, rest), e) ↦
        let (_, _, gone) = take_id-Rising id 0 (queue db key) db.waiter_count w rest (v key) e in
        ground (arith, bytes_eq_refl key)
  ]

  -- When a timer has run out, whoever waited under its id is not answered by it again.
  pub on_timeout_twice :
      (db : Database H) (key : Bytes) (id : ℕ) (ec : Bool)
      → InOrder db
      → (on_timeout key id ec (on_timeout key id false db).0).1 ≡ []
  on_timeout_twice db key id ec v =
      absent-on_timeout (on_timeout key id false db).0 key id ec (timed_out-queue db key id v)
