-- ===== src/Database/Waiters/Conserved.antt =====
-- No blocked client is lost and none is answered twice, counted over whole histories.
use redis_cpp.Prelude.{
  ℕ, ◌+◌, ◌≡◌, ◌==◌, Bool, true, false, Option, none, some, List, [], ◌∷◌, ◌++◌, arith,
  Option-cases, Bool-cases, inl, inr, if◌then◌else◌,
}
use redis_cpp.Prelude.Int.{ℤ}
use redis_cpp.Prelude.Bytes.{Bytes, bytes_eq, bytes_eq_sound}
use redis_cpp.Prelude.Outcome.{ok}
use redis_cpp.Database.Table.{assign}
use redis_cpp.Database.Waiters.{Queued, kept, joined}
use redis_cpp.Database.{
  Database, Waiter, Calls, queue, take_id, enqueue, on_timeout, notify_list_push,
}

module _ {H : Type 0} (mine : H → Bool) where
  unfoldable pub one : H → ℕ
  one h = if mine h then 1 else 0

  -- How many of the queue are mine, and how many of the calls.
  unfoldable pub waiting : List (Waiter H) → ℕ
  unfolding one
  waiting [] = 0
  waiting (w ∷ ws) = one w.handler + waiting ws

  unfoldable pub answered : Calls H → ℕ
  unfolding one
  answered [] = 0
  answered ((h, v) ∷ calls) = one h + answered calls

  waiting-append :
      (ws : List (Waiter H)) (w : Waiter H) → waiting (ws ++ w ∷ []) ≡ waiting ws + one w.handler
  unfolding waiting
  waiting-append [] w = omega arith
  waiting-append (v ∷ ws) w = omega (arith, waiting-append ws w)

  pub waiting-take_id :
      (id : ℕ) (ws : List (Waiter H)) (w : Waiter H) (rest : List (Waiter H))
      → take_id id ws ≡ some (w, rest)
      → waiting ws ≡ one w.handler + waiting rest
  unfolding waiting take_id
  waiting-take_id id [] w rest h = absurd (cc)
  waiting-take_id id (v ∷ ws) w rest h = elim (Bool-cases (v.id == id)) [
    | inl e ↦ ground arith
    | inr e ↦ elim (Option-cases (take_id id ws)) [
      | inl missing ↦ absurd (ground arith)
      | inr ((found, rest'), e') ↦ ground (arith, waiting-take_id id ws found rest' e')
    ]
  ]

  -- `notifyListPush` answers those that it takes from the queue.
  pub notify-conserves :
      (db db' : Database H) (key k : Bytes) (calls : Calls H) (q : Option (List (Waiter H)))
      → db.waiters key ≡ q
      → notify_list_push db key ≡ ok (db', calls)
      → waiting (queue db' k) + (if bytes_eq key k then answered calls else 0)
        ≡ waiting (queue db k)
  unfolding notify_list_push assign waiting answered
  notify-conserves db db' key k calls none e h = ground arith
  notify-conserves db db' key k calls (some []) e h = ground arith
  notify-conserves db db' key k calls (some (w ∷ rest)) e h = ground (arith, bytes_eq_sound key k)

  pub timeout-conserves :
      (db : Database H) (key k : Bytes) (id : ℕ) (ec : Bool)
      → waiting (queue (on_timeout key id ec db).0 k)
          + (if bytes_eq key k then answered (on_timeout key id ec db).1 else 0)
        ≡ waiting (queue db k)
  unfolding on_timeout assign waiting answered
  timeout-conserves db key k id true = ground arith
  timeout-conserves db key k id false = elim (Option-cases (take_id id (queue db key))) [
    | inl e ↦ ground (arith, bytes_eq_sound key k)
    | inr ((w, rest), e) ↦
        ground (arith, bytes_eq_sound key k, waiting-take_id id (queue db key) w rest e)
  ]

  queue-enqueue :
      (db : Database H) (key k : Bytes) (handler : H) (timer : Option ℤ)
      → waiting (queue (enqueue db key handler timer) k)
        ≡ (if bytes_eq key k then one handler else 0) + waiting (queue db k)
  unfolding enqueue assign
  queue-enqueue db key k handler timer = ground (
    arith,
    bytes_eq_sound key k,
    waiting-append (queue db key)
        (record { id = db.waiter_count; handler = handler; timer = timer }),
  )

  -- `asyncBlpop` answers its caller or has it wait.
  pub blpop-conserves :
      (db db' : Database H) (key k : Bytes) (handler : H) (calls : Calls H)
      → Queued db db' key handler calls
      → waiting (queue db' k) + (if bytes_eq key k then answered calls else 0)
        ≡ (if bytes_eq key k then one handler else 0) + waiting (queue db k)
  unfolding answered
  blpop-conserves db db' key k handler calls (kept val e e' e'') = rw (e, e'') (ground arith)
  blpop-conserves db db' key k handler calls (joined timer e e') =
      rw (e, e') (ground (arith, queue-enqueue db key k handler timer))
