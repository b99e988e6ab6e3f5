-- ===== src/Database/Waiters.antt =====
-- The queues of blocked clients: `asyncBlpop`, `notifyListPush` and the timeout callback.
pub mod Once
pub mod Conserved
pub mod Held
use mathlib.Core.Path.{subst}
use redis_cpp.Prelude.{
  ℕ, zero, suc, ◌+◌, ◌-◌, ◌≤◌, ◌<◌, ◌≡◌, ◌≢◌, refl, sym, ap, ◌∙◌, Bool, true, false, Option, none,
  some, List, [], ◌∷◌, ◌++◌, length, leb, ltb, ◌==◌, arith, Option-cases, Bool-cases, inl, inr,
  if◌then◌else◌,
}
use redis_cpp.Prelude.Int.{ℤ}
use redis_cpp.Prelude.Bytes.{Bytes, bytes_eq, bytes_eq_refl, bytes_eq_sound}
use redis_cpp.Prelude.Outcome.{Outcome, ok, throws, undefined, ◌>>=◌, >>=-ok}
use redis_cpp.Database.Table.{value_or, assign}
use redis_cpp.Database.Lists.{list_at}
use redis_cpp.Database.Vectors.{pop_front}
use redis_cpp.Database.{
  Database, Waiter, Floating, Calls, queue, enqueue, take_id, on_timeout, async_blpop,
  notify_list_push, wait, serve, remove_list_value,
}

module _ {H : Type 0} where
  -- The ids rise along the queue, from `lo` on, and stay below `hi`.
  abbrev pub Rising : ℕ → List (Waiter H) → ℕ → Type 0
  Rising lo [] hi = lo ≤ hi
  Rising lo (w ∷ ws) hi = (lo ≤ w.id) × Rising (suc w.id) ws hi

  Rising-le : (lo : ℕ) (ws : List (Waiter H)) (hi : ℕ) → Rising lo ws hi → lo ≤ hi
  Rising-le lo [] hi r = r
  Rising-le lo (w ∷ ws) hi r = omega (arith, Rising-le (suc w.id) ws hi r.1)

  Rising-from :
      (lo lo' : ℕ) (ws : List (Waiter H)) (hi : ℕ) → lo' ≤ lo → Rising lo ws hi → Rising lo' ws hi
  Rising-from lo lo' [] hi h r = omega arith
  Rising-from lo lo' (w ∷ ws) hi h r = (omega arith, r.1)

  Rising-to :
      (lo : ℕ) (ws : List (Waiter H)) (hi hi' : ℕ) → hi ≤ hi' → Rising lo ws hi → Rising lo ws hi'
  Rising-to lo [] hi hi' h r = omega arith
  Rising-to lo (w ∷ ws) hi hi' h r = (r.0, Rising-to (suc w.id) ws hi hi' h r.1)

  Rising-append :
      (lo : ℕ) (ws : List (Waiter H)) (w : Waiter H)
      → Rising lo ws w.id
      → Rising lo (ws ++ w ∷ []) (suc w.id)
  Rising-append lo [] w r = (r, omega arith)
  Rising-append lo (v ∷ ws) w r = (r.0, Rising-append (suc v.id) ws w r.1)

  pub take_id_above :
      (id lo : ℕ) (ws : List (Waiter H)) (hi : ℕ) → id < lo → Rising lo ws hi → take_id id ws ≡ none
  unfolding take_id
  take_id_above id lo [] hi h r = refl
  take_id_above id lo (w ∷ ws) hi h r = ground (arith, take_id_above id (suc w.id) ws hi)

  -- What is left behind a found waiter: its id occurs no more, and the ids still rise.
  pub take_id-Rising :
      (id lo : ℕ) (ws : List (Waiter H)) (hi : ℕ) (w : Waiter H) (rest : List (Waiter H))
      → Rising lo ws hi
      → take_id id ws ≡ some (w, rest)
      → Rising lo rest hi × (w.id ≡ id) × (take_id id rest ≡ none)
  unfolding take_id
  take_id-Rising id lo [] hi w rest r h = absurd (cc)
  take_id-Rising id lo (v ∷ ws) hi w rest r h = elim (Bool-cases (v.id == id)) [
    | inl e ↦
        let first : v ≡ w = ground arith in
        let tail : ws ≡ rest = ground arith in
        (
          rw tail at (Rising-from (suc v.id) lo ws hi (omega arith) r.1),
          ground arith,
          rw tail at (take_id_above id (suc v.id) ws hi (ground arith) r.1),
        )
    | inr e ↦ elim (Option-cases (take_id id ws)) [
      | inl missing ↦ absurd (ground arith)
      | inr ((found, rest'), e') ↦
          let (rising, same, gone) = take_id-Rising id (suc v.id) ws hi found rest' r.1 e' in
          let shape : v ∷ rest' ≡ rest = ground arith in
          let who : found ≡ w = ground arith in
          let kept : Rising lo (v ∷ rest') hi = (r.0, rising) in
          let absent : take_id id (v ∷ rest') ≡ none = ground arith in
          (
            subst (λ l. Rising lo l hi) shape kept,
            rw who at same,
            subst (λ l. take_id id l ≡ none) shape absent,
          )
    ]
  ]

  -- In every queue the ids rise, and all were given out.
  abbrev pub InOrder : Database H → Type 0
  InOrder db = (key : Bytes) → Rising 0 (queue db key) db.waiter_count

  -- A blocking pop of a list with elements takes the first, and its handler is called with it at
  -- once; nobody is queued, and no timer is started.
  pub async_blpop_now :
      (F : Floating) (db : Database H) (key : Bytes) (timeout : F.Double) (handler : H) (x : Bytes)
      (vec : List Bytes)
      → db.list_store key ≡ some (x ∷ vec)
      → async_blpop F db key timeout handler
        ≡ ok (record db { list_store = assign db.list_store key vec }, (handler, some x) ∷ [])
  unfolding async_blpop
  async_blpop_now F db key timeout handler x vec h = ground arith

  enqueue-InOrder :
      (db : Database H) (key : Bytes) (handler : H) (timer : Option ℤ)
      → InOrder db
      → InOrder (enqueue db key handler timer)
  unfolding enqueue assign
  enqueue-InOrder db key handler timer v k = ground (
    arith,
    v k,
    bytes_eq_sound key k,
    Rising-to 0 (queue db k) db.waiter_count (suc db.waiter_count) (omega arith),
    Rising-append 0 (queue db key)
        (record { id = db.waiter_count; handler = handler; timer = timer }) (v key),
  )

  -- An operation that returns has called the caller and changed no queue, or called nobody and put
  -- the caller at the end of its queue.
  pub data Queued (db db' : Database H) (key : Bytes) (handler : H) (calls : Calls H) : Type 0 where
    kept :
        (val : Option Bytes)
        → db'.waiters ≡ db.waiters
        → db'.waiter_count ≡ db.waiter_count
        → calls ≡ (handler, val) ∷ []
        → Queued db db' key handler calls
    joined :
        (timer : Option ℤ)
        → db' ≡ enqueue db key handler timer
        → calls ≡ []
        → Queued db db' key handler calls

  wait-Queued :
      (F : Floating) (db db' : Database H) (key : Bytes) (timeout : F.Double) (handler : H)
      (calls : Calls H)
      → wait F db key timeout handler ≡ ok (db', calls)
      → Queued db db' key handler calls
  unfolding wait
  wait-Queued F db db' key timeout handler calls h = elim (Bool-cases (F.is_positive timeout)) [
    | inl e ↦
        let started : (F.to_millis timeout >>= enqueued) ≡ ok (db', calls) = ground arith in
        let (delay, _, e') = >>=-ok (F.to_millis timeout) enqueued started in
        joined (some delay) (ground arith) (ground arith)
    | inr e ↦ joined none (ground arith) (ground arith)
  ]
    where
      enqueued : ℤ → Outcome (Database H × Calls H)
      enqueued delay = ok (enqueue db key handler (some delay), [])

  pub async_blpop-Queued :
      (F : Floating) (db db' : Database H) (key : Bytes) (timeout : F.Double) (handler : H)
      (calls : Calls H) (vec : Option (List Bytes))
      → db.list_store key ≡ vec
      → async_blpop F db key timeout handler ≡ ok (db', calls)
      → Queued db db' key handler calls
  unfolding async_blpop
  async_blpop-Queued F db db' key timeout handler calls none e h =
      wait-Queued F db db' key timeout handler calls (rw (e, async_blpop) at h)
  async_blpop-Queued F db db' key timeout handler calls (some []) e h =
      wait-Queued F db db' key timeout handler calls (rw (e, async_blpop) at h)
  async_blpop-Queued F db db' key timeout handler calls (some (x ∷ vec)) e h =
      kept (some x) (ground arith) (ground arith) (ground arith)

  Queued-InOrder :
      (db db' : Database H) (key : Bytes) (handler : H) (calls : Calls H)
      → InOrder db
      → Queued db db' key handler calls
      → InOrder db'
  Queued-InOrder db db' key handler calls v (kept val e e' _) k = rw (e, e') (v k)
  Queued-InOrder db db' key handler calls v (joined timer e _) k =
      subst InOrder (sym e) (enqueue-InOrder db key handler timer v) k

  -- `asyncBlpop` keeps the queues in order.
  pub async_blpop-InOrder :
      (F : Floating) (db db' : Database H) (key : Bytes) (timeout : F.Double) (handler : H)
      (calls : Calls H)
      → InOrder db
      → async_blpop F db key timeout handler ≡ ok (db', calls)
      → InOrder db'
  async_blpop-InOrder F db db' key timeout handler calls v h =
      Queued-InOrder db db' key handler calls v
        (async_blpop-Queued F db db' key timeout handler calls (db.list_store key) refl h)

  replaced-InOrder :
      (db db' : Database H) (key : Bytes) (ws : List (Waiter H))
      → InOrder db
      → db'.waiters ≡ assign db.waiters key ws
      → db'.waiter_count ≡ db.waiter_count
      → Rising 0 ws db.waiter_count
      → InOrder db'
  unfolding assign
  replaced-InOrder db db' key ws v e e' r k = rw (e, e') (ground (arith, v k))

  -- `notifyListPush` with waiters takes the oldest from the queue, cancels its timer if it has one,
  -- and calls its handler with the first value of the list; all else is as it was.
  pub notify_list_push-serves :
      (db : Database H) (key : Bytes) (w : Waiter H) (rest : List (Waiter H)) (x : Bytes)
      (vec : List Bytes)
      → db.waiters key ≡ some (w ∷ rest)
      → db.list_store key ≡ some (x ∷ vec)
      → notify_list_push db key
        ≡ ok (
          record db {
            list_store = assign db.list_store key vec;
            waiters = assign db.waiters key rest;
            cancelled = elim w.timer [ none ↦ db.cancelled | some delay ↦ w.id ∷ db.cancelled ];
          },
          (w.handler, some x) ∷ [],
        )
  unfolding notify_list_push
  notify_list_push-serves db key w rest x vec h e = ground arith

  notified-InOrder :
      (db db' : Database H) (key : Bytes) (calls : Calls H) (q : Option (List (Waiter H)))
      → db.waiters key ≡ q
      → InOrder db
      → notify_list_push db key ≡ ok (db', calls)
      → InOrder db'
  unfolding notify_list_push
  notified-InOrder db db' key calls none e v h =
      let same : db ≡ db' = ground arith in subst InOrder same v
  notified-InOrder db db' key calls (some []) e v h =
      let same : db ≡ db' = ground arith in subst InOrder same v
  notified-InOrder db db' key calls (some (w ∷ rest)) e v h =
      let r : Rising 0 (w ∷ rest) db.waiter_count =
        subst (λ q. Rising 0 (value_or q []) db.waiter_count) e (v key) in
      replaced-InOrder db db' key rest v (ground arith) (ground arith)
        (Rising-from (suc w.id) 0 rest db.waiter_count (omega arith) r.1)

  -- `notifyListPush` keeps the queues in order.
  pub notify_list_push-InOrder :
      (db db' : Database H) (key : Bytes) (calls : Calls H)
      → InOrder db
      → notify_list_push db key ≡ ok (db', calls)
      → InOrder db'
  notify_list_push-InOrder db db' key calls =
      notified-InOrder db db' key calls (db.waiters key) refl

  -- So does the timeout callback.
  pub on_timeout-InOrder :
      (db : Database H) (key : Bytes) (id : ℕ) (ec : Bool)
      → InOrder db
      → InOrder (on_timeout key id ec db).0
  unfolding on_timeout
  on_timeout-InOrder db key id true v = v
  on_timeout-InOrder db key id false v = elim (Option-cases (take_id id (queue db key))) [
    | inl e ↦
        replaced-InOrder db (on_timeout key id false db).0 key (queue db key) v (ground arith)
          (ground arith) (v key)
    | inr ((w, rest), e) ↦
        replaced-InOrder db (on_timeout key id false db).0 key rest v (ground arith) (ground arith)
          (take_id-Rising id 0 (queue db key) db.waiter_count w rest (v key) e).0
  ]
