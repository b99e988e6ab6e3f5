-- ===== src/Database.antt =====
-- The class `Database`: src/database.hpp and src/database.cc.
-- `H` is the type of the handlers, which are called by whoever runs an operation: each operation
-- returns, in order, the calls that it makes. The timers belong to asio, which is not modelled:
-- `timers` holds what was given to `async_wait`, `cancelled` the waiters whose timer was cancelled.
pub mod Table
pub mod Vectors
pub mod Values
pub mod Lists
pub mod Range
pub mod Waiters
pub mod Quiet
pub mod History
use redis_cpp.Prelude.{
  ℕ, zero, suc, ◌+◌, ◌-◌, [], ◌∷◌, ◌++◌, List, reverse, Option, none, some, Bool, length, take,
  drop, get_elem?, leb, ltb, ◌==◌, ◌||◌, ◌&&◌, not, if◌then◌else◌,
}
use redis_cpp.Prelude.Int.{ℤ, pos, negsuc, ◌+ℤ◌, ltb_ℤ, leb_ℤ, to_int, pos_part}
use redis_cpp.Prelude.Bytes.{Bytes, bytes_eq}
use redis_cpp.Prelude.Outcome.{Outcome, ok, throws, undefined, ◌>>=◌, out_of_range}
use Vectors.{at, pop_front, pop_fronts, range}
use Table.{Map, empty, assign, insert, erase, value_or}

pub record ServerConfig : Type 0 where
  pub master_address : Bytes
  pub port : ℤ
  pub master_port : Bytes

-- `timer` is the delay in milliseconds, or `none` for the null pointer.
pub record Waiter (H : Type 0) : Type 0 where
  pub id : ℕ
  pub handler : H
  pub timer : Option ℤ

-- A callback given to `async_wait`, with what it captures and its delay in milliseconds.
pub data Timer : Type 0 where
  expires : Bytes → ℤ → Timer
  times_out : Bytes → ℕ → ℤ → Timer

pub record Database (H : Type 0) : Type 0 where
  pub config : ServerConfig
  pub kv_store : Map Bytes
  pub list_store : Map (List Bytes)
  pub waiters : Map (List (Waiter H))
  pub waiter_count : ℕ
  pub timers : List Timer
  pub cancelled : List ℕ

-- A call of a handler with its argument.
abbrev pub Calls : Type 0 → Type 0
Calls H = List (H × Option Bytes)

-- What the program uses of `double`, and of `std::chrono`: `on_clock` says of a number of milliseconds
-- that `steady_clock::now()` can be so much later, throughout the run.
pub record Floating : Type 1 where
  pub Double : Type 0
  pub stod : Bytes → Outcome Double
  pub is_positive : Double → Bool
  pub to_millis : Double → Outcome ℤ
  pub on_clock : ℤ → Bool

module _ {H : Type 0} where
  unfoldable pub create : ServerConfig → Database H
  create config = record {
    config = config;
    kv_store = empty;
    list_store = empty;
    waiters = empty;
    waiter_count = 0;
    timers = [];
    cancelled = [];
  }

  unfoldable pub find_kv_store_value : Database H → Bytes → Option Bytes
  find_kv_store_value db key = db.kv_store key

  unfoldable pub find_list_store_value : Database H → Bytes → Option (List Bytes)
  find_list_store_value db key = db.list_store key

  unfoldable pub get_value : Database H → Bytes → Bytes
  unfolding find_kv_store_value
  get_value db key = elim (find_kv_store_value db key) [ none ↦ [] | some val ↦ val ]

  -- `setValue` with a time that is on the clock, or with none.
  unfoldable pub set_value : Database H → Bytes → Bytes → ℤ → Database H
  set_value db key value time =
      let stored = record db { kv_store = insert db.kv_store key value } in
      if ltb_ℤ (pos 0) time then record stored { timers = expires key time ∷ db.timers } else stored

  -- `setValue`: the sum of `now()` and a time that is not on the clock overflows.
  unfoldable pub set_value_timed :
      (F : Floating) → Database H → Bytes → Bytes → ℤ → Outcome (Database H)
  set_value_timed F db key value time =
      if ltb_ℤ (pos 0) time && not (F.on_clock time)
      then undefined
      else ok (set_value db key value time)

  -- The callback of the timer that `set_value` starts.
  unfoldable pub on_expire : Bytes → Bool → Database H → Database H
  on_expire key ec db = if ec then db else record db { kv_store = erase db.kv_store key }

  abbrev store_list : Database H → Bytes → List Bytes → Database H
  store_list db key vec = record db { list_store = assign db.list_store key vec }

  -- `setList` with one value.
  unfoldable pub set_list_value : Database H → Bytes → Bytes → Database H × ℤ
  unfolding find_list_store_value
  set_list_value db key value = elim (find_list_store_value db key) [
    | none ↦ (store_list db key (value ∷ []), pos 1)
    | some vec ↦
        let vec' = vec ++ value ∷ [] in (store_list db key vec', to_int (pos (length vec')))
  ]

  -- `setList` with a vector.
  unfoldable pub set_list : Database H → Bytes → List Bytes → Database H × ℤ
  unfolding find_list_store_value
  set_list db key values = elim (find_list_store_value db key) [
    | none ↦ (store_list db key values, to_int (pos (length values)))
    | some vec ↦ let vec' = vec ++ values in (store_list db key vec', to_int (pos (length vec')))
  ]

  unfoldable pub set_list_left : Database H → Bytes → List Bytes → Database H × ℤ
  set_list_left db key values =
      let vec = reverse (value_or (db.list_store key) [] ++ values) in
      (store_list db key vec, to_int (pos (length vec)))

  unfoldable pub get_list_value : Database H → Bytes → ℤ → Outcome Bytes
  unfolding find_list_store_value at
  get_list_value db key idx = elim (find_list_store_value db key) [
    | none ↦ ok []
    | some vec ↦ at vec idx
  ]

  unfoldable pub get_list_length : Database H → Bytes → ℕ
  unfolding find_list_store_value
  get_list_length db key = elim (find_list_store_value db key) [ none ↦ 0 | some vec ↦ length vec ]

  -- `removeListValue` of one value.
  unfoldable pub remove_list_value : Database H → Bytes → Outcome (Database H × Bytes)
  unfolding find_list_store_value pop_front
  remove_list_value db key = elim (find_list_store_value db key) [
    | none ↦ ok (db, [])
    | some vec ↦ pop_front vec >>= λ (val, rest). ok (store_list db key rest, val)
  ]

  -- `removeListValue` of `idx` values; a negative `idx` makes no round.
  unfoldable pub remove_list_values : Database H → Bytes → ℤ → Outcome (Database H × List Bytes)
  unfolding find_list_store_value pop_fronts
  remove_list_values db key idx = elim (find_list_store_value db key) [
    | none ↦ ok (db, [])
    | some vec ↦
        pop_fronts (pos_part idx) vec >>= λ (values, left). ok (store_list db key left, values)
  ]

  unfoldable pub get_list_range : Database H → Bytes → ℤ → ℤ → List Bytes
  unfolding find_list_store_value range
  get_list_range db key first last = elim (find_list_store_value db key) [
    | none ↦ []
    | some vec ↦ range vec (to_int (pos (length vec))) first last
  ]

  abbrev pub queue : Database H → Bytes → List (Waiter H)
  queue db key = value_or (db.waiters key) []

  abbrev store_queue : Database H → Bytes → List (Waiter H) → Database H
  store_queue db key ws = record db { waiters = assign db.waiters key ws }

  -- `erase(find_if(id))`, and the waiter that was found.
  unfoldable pub take_id : ℕ → List (Waiter H) → Option (Waiter H × List (Waiter H))
  take_id id [] = none
  take_id id (w ∷ ws) =
      if w.id == id
      then some (w, ws)
      else elim (take_id id ws) [ none ↦ none | some (found, rest) ↦ some (found, w ∷ rest) ]

  -- The callback of the timer that `async_blpop` starts; `ec` says that it was cancelled. The lookup
  -- by `waiters_[key]` makes an empty queue where none is.
  unfoldable pub on_timeout : Bytes → ℕ → Bool → Database H → Database H × Calls H
  unfolding take_id
  on_timeout key id ec db = if ec then (db, []) else elim (take_id id (queue db key)) [
    | none ↦ (store_queue db key (queue db key), [])
    | some (w, rest) ↦ (store_queue db key rest, (w.handler, none) ∷ [])
  ]

  -- The tail of `asyncBlpop`, with the new waiter's timer.
  unfoldable pub enqueue : Database H → Bytes → H → Option ℤ → Database H
  enqueue db key handler timer =
      let id = db.waiter_count in
      let w : Waiter H = record { id = id; handler = handler; timer = timer } in
      record (store_queue db key (queue db key ++ w ∷ [])) {
        waiter_count = suc id;
        timers = elim timer [ none ↦ db.timers | some delay ↦ times_out key id delay ∷ db.timers ];
      }

  module _ (F : Floating) where
    open F use {Double, is_positive, to_millis}

    wait : Database H → Bytes → Double → H → Outcome (Database H × Calls H)
    unfolding enqueue
    wait db key timeout handler =
        if is_positive timeout
        then (to_millis timeout >>= λ delay. ok (enqueue db key handler (some delay), []))
        else ok (enqueue db key handler none, [])

    unfoldable pub async_blpop : Database H → Bytes → Double → H → Outcome (Database H × Calls H)
    unfolding find_list_store_value wait remove_list_value
    async_blpop db key timeout handler = elim (find_list_store_value db key) [
      | some (x ∷ vec) ↦
          remove_list_value db key >>= λ (db', val). ok (db', (handler, some val) ∷ [])
      | _ ↦ wait db key timeout handler
    ]

  -- `notifyListPush` with the oldest waiter `w`, and those behind it.
  serve : Database H → Bytes → Waiter H → List (Waiter H) → Outcome (Database H × Calls H)
  serve db key w rest =
      let db' = record (store_queue db key rest) {
        cancelled = elim w.timer [ none ↦ db.cancelled | some delay ↦ w.id ∷ db.cancelled ];
      } in
      remove_list_value db' key >>= λ (db'', val). ok (db'', (w.handler, some val) ∷ [])

  unfoldable pub notify_list_push : Database H → Bytes → Outcome (Database H × Calls H)
  unfolding serve remove_list_value
  notify_list_push db key = elim (db.waiters key) [
    | none ↦ ok (db, [])
    | some [] ↦ ok (db, [])
    | some (w ∷ rest) ↦ serve db key w rest
  ]
