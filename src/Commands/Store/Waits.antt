-- ===== src/Commands/Store/Waits.antt =====
-- Those who wait are served, and give up, as promised.
use redis_cpp.Prelude.{
  ℕ, ◌≤◌, ◌==◌, ◌≡◌, refl, ◌∙◌, ap, List, [], ◌∷◌, map, length, arith, Option, none, some, false,
  Bool-cases, inl, inr,
}
use redis_cpp.Prelude.Bytes.{Bytes, bytes_eq, bytes_eq_sound}
use redis_cpp.Prelude.Outcome.{ok}
use redis_cpp.Database
use redis_cpp.Database.{Database, Waiter, Calls, Floating, queue, take_id}
use redis_cpp.Database.Table.{assign, value_or}
use redis_cpp.Database.Lists.{list_at}
use redis_cpp.Database.Waiters.{notify_list_push-serves}
use redis_cpp.Commands.{BlpopHandler, answer}
use redis_cpp.Commands.Delivery.{notify_nobody, queue-some}
use redis_cpp.Commands.ListStore.Serves.{announced}
use redis_cpp.Commands.Store.{Store, hand_over, serve_oldest, leave, give_up}
use redis_cpp.Commands.Store.Shows.{Shows, place, place_for, assign-Queues, assign-View}

pub list-some :
    (db : Database BlpopHandler) (key x : Bytes) (l : List Bytes)
    → list_at db key ≡ x ∷ l
    → db.list_store key ≡ some (x ∷ l)
list-some db key x l h = ground arith

-- The announcement of a push, for those who wait `q` and `waiting` say in the database and in the store.
announced-at :
    (db : Database BlpopHandler) (store : Store) (session : ℕ) (text key : Bytes)
    (q : List (Waiter BlpopHandler)) (waiting : List (ℕ × ℕ)) (l : List Bytes)
    → Shows db store
    → queue db key ≡ q
    → store.waiting key ≡ waiting
    → store.lists key ≡ l
    → map place q ≡ map (place_for key) waiting
    → 1 ≤ length l
    → (db' : Database BlpopHandler) × (announced session text (some key) db
        ≡ ok (db', (session, text) ∷ (hand_over store key waiting l).1))
      × Shows db' (hand_over store key waiting l).0
unfolding announced hand_over answer
announced-at db store session text key [] [] l shows qs ws ls e h =
    (db, rw (notify_nobody db key qs) refl, shows)
announced-at db store session text key [] ((i, s) ∷ waiting) l shows qs ws ls e h = absurd (cc)
announced-at db store session text key (w ∷ q) [] l shows qs ws ls e h = absurd (cc)
announced-at db store session text key (w ∷ q) ((i, s) ∷ waiting) [] shows qs ws ls e h =
    absurd (omega arith)
announced-at db store session text key (w ∷ q) ((i, s) ∷ waiting) (x ∷ l) shows qs ws ls e h =
    let (values, view, queues, count, master) = shows in
    let stored = list-some db key x l (view key ∙ ls) in
    let who : w.handler ≡ record { session = s; key = key } = cc in
    let others : map place q ≡ map (place_for key) waiting = cc in
    let served = notify_list_push-serves db key w q x l (queue-some db key w q qs) stored in
    (
      record db {
        list_store = assign db.list_store key l;
        waiters = assign db.waiters key q;
        cancelled = elim w.timer [ none ↦ db.cancelled | some delay ↦ w.id ∷ db.cancelled ];
      },
      rw (served, who) refl,
      (
        values,
        assign-View db store key l view,
        assign-Queues db store key q waiting queues others,
        count,
        master,
      ),
    )

pub announced-Shows :
    (db : Database BlpopHandler) (store : Store) (session : ℕ) (text key : Bytes)
    → Shows db store
    → 1 ≤ length (store.lists key)
    → (db' : Database BlpopHandler) × (announced session text (some key) db
        ≡ ok (db', (session, text) ∷ (serve_oldest store (some key)).1))
      × Shows db' (serve_oldest store (some key)).0
unfolding serve_oldest
announced-Shows db store session text key shows h =
    announced-at db store session text key (queue db key) (store.waiting key) (store.lists key)
      shows refl refl refl (shows.2 key) h

abbrev Left :
    Bytes
    → Option (Waiter BlpopHandler × List (Waiter BlpopHandler))
    → Option (ℕ × List (ℕ × ℕ))
    → Type 0
Left key none none = Unit {0}
Left key none (some v) = ⊥
Left key (some u) none = ⊥
Left key (some (w, q)) (some (session, waiting)) =
    (w.handler ≡ record { session = session; key = key })
    × (map place q ≡ map (place_for key) waiting)

still-Left :
    (key : Bytes) (w : Waiter BlpopHandler) (i s : ℕ)
    (t : Option (Waiter BlpopHandler × List (Waiter BlpopHandler))) (v : Option (ℕ × List (ℕ × ℕ)))
    → w.id ≡ i
    → w.handler ≡ record { session = s; key = key }
    → Left key t v
    → Left key
        (elim t [ none ↦ none | some (found, rest) ↦ some (found, w ∷ rest) ])
        (elim v [ none ↦ none | some (found, others) ↦ some (found, (i, s) ∷ others) ])
still-Left key w i s none none same who h = tt
still-Left key w i s none (some v) same who h = h
still-Left key w i s (some t) none same who h = h
still-Left key w i s (some (u, q)) (some (session, waiting)) same who h =
    (h.0, rw (same, who, h.1) refl)

-- One who leaves the queue.
took-Left :
    (key : Bytes) (ticket : ℕ) (q : List (Waiter BlpopHandler)) (waiting : List (ℕ × ℕ))
    → map place q ≡ map (place_for key) waiting
    → Left key (take_id ticket q) (leave ticket waiting)
unfolding take_id leave
took-Left key ticket [] [] e = tt
took-Left key ticket [] (v ∷ waiting) e = absurd (cc)
took-Left key ticket (w ∷ q) [] e = absurd (cc)
took-Left key ticket (w ∷ q) ((i, s) ∷ waiting) e =
    let same : w.id ≡ i = cc in
    let others : map place q ≡ map (place_for key) waiting = cc in
    let who : w.handler ≡ record { session = s; key = key } = cc in
    elim (Bool-cases (i == ticket)) [
      | inl t ↦ rw (same, t) (who, others)
      | inr f ↦
          rw (same, f)
            (still-Left key w i s (take_id ticket q) (leave ticket waiting) same who
              (took-Left key ticket q waiting others))
    ]

queue-kept :
    (db : Database BlpopHandler) (key k : Bytes)
    → value_or (assign db.waiters key (queue db key) k) [] ≡ queue db k
unfolding assign
queue-kept db key k = elim (Bool-cases (bytes_eq key k)) [
  | inl same ↦ rw same (ap (queue db) (bytes_eq_sound key k same))
  | inr other ↦ rw other refl
]

timed_out :
    (db : Database BlpopHandler) (store : Store) (key : Bytes) (ticket : ℕ)
    (t : Option (Waiter BlpopHandler × List (Waiter BlpopHandler))) (v : Option (ℕ × List (ℕ × ℕ)))
    → take_id ticket (queue db key) ≡ t
    → leave ticket (store.waiting key) ≡ v
    → Left key t v
    → Shows db store
    → (map answer (Database.on_timeout key ticket false db).1 ≡ (give_up store key ticket).1)
      × Shows (Database.on_timeout key ticket false db).0 (give_up store key ticket).0
unfolding Database.on_timeout give_up answer assign
timed_out db store key ticket none none te ve h (values, view, queues, count, master) =
    rw (te, give_up, ve)
      (refl, (values, view, (λ k. rw (queue-kept db key k) (queues k)), count, master))
timed_out db store key ticket none (some v) te ve h shows = absurd h
timed_out db store key ticket (some t) none te ve h shows = absurd h
timed_out db store key ticket (some (w, q)) (some (s, waiting)) te ve h
      (values, view, queues, count, master) =
    rw (te, give_up, ve)
      (
        rw (h.0) refl,
        (values, view, assign-Queues db store key q waiting queues h.1, count, master),
      )

-- The end of a wait.
pub on_timeout-Shows :
    (db : Database BlpopHandler) (store : Store) (key : Bytes) (ticket : ℕ)
    → Shows db store
    → (map answer (Database.on_timeout key ticket false db).1 ≡ (give_up store key ticket).1)
      × Shows (Database.on_timeout key ticket false db).0 (give_up store key ticket).0
unfolding Database.on_timeout give_up
on_timeout-Shows db store key ticket shows =
    timed_out db store key ticket (take_id ticket (queue db key)) (leave ticket (store.waiting key))
      refl refl (took-Left key ticket (queue db key) (store.waiting key) (shows.2 key)) shows
