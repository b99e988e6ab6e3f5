-- ===== src/Commands/Store/Shows.antt =====
-- What the store of the promise is of a database, and the values in both.
use redis_cpp.Prelude.{ℕ, ◌≡◌, List, [], map, arith, false, Bool-cases, inl, inr}
use mathlib.Core.Path.{subst}
use redis_cpp.Prelude.Int.{ℤ}
use redis_cpp.Prelude.Bytes.{Bytes, bytes_eq, bytes_eq_sound}
use redis_cpp.Database
use redis_cpp.Database.{Database, Waiter, queue}
use redis_cpp.Database.Table.{assign, insert, erase, value_or}
use redis_cpp.Database.Quiet.{set_value-waiters}
use redis_cpp.Commands.{BlpopHandler}
use redis_cpp.Commands.ListStore.{at_key}
use redis_cpp.Commands.ListStore.Serves.{View}
use redis_cpp.Commands.Store.{Store, with_value, without_value, kept_or}

-- A waiter as those who wait see it, without its timer.
abbrev pub place : Waiter BlpopHandler → ℕ × BlpopHandler
place w = (w.id, w.handler)

-- One who waits for a key, with a ticket.
abbrev pub place_for : Bytes → ℕ × ℕ → ℕ × BlpopHandler
place_for key (ticket, session) = (ticket, record { session = session; key = key })

abbrev pub Queues : (Bytes → List (Waiter BlpopHandler)) → (Bytes → List (ℕ × ℕ)) → Type 0
Queues queues waiting = (k : Bytes) → map place (queues k) ≡ map (place_for k) (waiting k)

abbrev pub Shows : Database BlpopHandler → Store → Type 0
Shows db store =
    ((k : Bytes) → db.kv_store k ≡ store.values k)
    × View db store.lists
    × Queues (queue db) store.waiting
    × (db.waiter_count ≡ store.tickets)
    × (db.config.master_address ≡ store.master_address)

-- Another queue for one key.
pub assign-Queues :
    (db : Database BlpopHandler) (store : Store) (key : Bytes) (q : List (Waiter BlpopHandler))
    (waiting : List (ℕ × ℕ))
    → Queues (queue db) store.waiting
    → map place q ≡ map (place_for key) waiting
    → Queues (λ k. value_or (assign db.waiters key q k) []) (at_key store.waiting key waiting)
unfolding assign
assign-Queues db store key q waiting queues e k = elim (Bool-cases (bytes_eq key k)) [
  | inl same ↦
      rw same (subst (λ j. map place q ≡ map (place_for j) waiting) (bytes_eq_sound key k same) e)
  | inr other ↦ rw other (queues k)
]

-- The lists after another one is stored for a key.
pub assign-View :
    (db : Database BlpopHandler) (store : Store) (key : Bytes) (l : List Bytes)
    → View db store.lists
    → (k : Bytes) → value_or (assign db.list_store key l k) [] ≡ at_key store.lists key l k
unfolding assign
assign-View db store key l view k = ground (arith, view k)

pub set_value-Shows :
    (db : Database BlpopHandler) (store : Store) (key value : Bytes) (time : ℤ)
    → Shows db store
    → Shows (Database.set_value db key value time) (with_value store key value)
unfolding Database.set_value insert assign with_value kept_or
set_value-Shows db store key value time (values, view, queues, count, master) = (
  (λ k. ground (arith, values k, bytes_eq_sound key k)),
  (λ k. ground (arith, view k)),
  (λ k. rw (set_value-waiters db key value time) (queues k)),
  ground (arith, count),
  ground (arith, master),
)

-- The timer of a key.
pub on_expire-Shows :
    (db : Database BlpopHandler) (store : Store) (key : Bytes)
    → Shows db store
    → Shows (Database.on_expire key false db) (without_value store key)
unfolding Database.on_expire erase without_value
on_expire-Shows db store key (values, view, queues, count, master) =
    ((λ k. ground (arith, values k)), view, queues, count, master)
