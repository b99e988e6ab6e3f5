-- ===== src/Tests/Database.antt =====
-- The database, at concrete inputs.
use redis_cpp.Prelude.{
  ℕ, ◌+◌, ◌≡◌, refl, false, none, some, [], ◌∷◌, List, length, take, drop, arith, leb,
  if◌then◌else◌,
}
use redis_cpp.Prelude.Int.{pos, negsuc, to_int}
use redis_cpp.Prelude.Bytes.{Bytes, codes, bytes_eq}
use redis_cpp.Prelude.Outcome.{ok, undefined}
use redis_cpp.Database
use redis_cpp.Database.{Database, ServerConfig, Waiter, Calls}
use redis_cpp.Database.Table.{value_or, assign, empty}
use redis_cpp.Database.Values
use redis_cpp.Database.Lists
use redis_cpp.Database.Lists.{list_at}
use redis_cpp.Database.Range
use redis_cpp.Database.Range.{select, position}
use redis_cpp.Database.Waiters.{InOrder}
use redis_cpp.Database.Waiters.Once

abbrev pub master : ServerConfig
master = record { master_address = codes "master"; port = pos 6379; master_port = codes "-1" }

abbrev key : Bytes
key = codes "k"

-- The handlers are numbers here.
abbrev fresh : Database ℕ
fresh = record {
  config = master;
  kv_store = empty;
  list_store = empty;
  waiters = empty;
  waiter_count = 0;
  timers = [];
  cancelled = [];
}

abbrev abc : List Bytes
abc = codes "a" ∷ codes "b" ∷ codes "c" ∷ []

abbrev listed : Database ℕ
listed = record fresh { list_store = assign empty key abc }

get_value-set_value_example :
    Database.get_value (Database.set_value fresh key (codes "v") (pos 0)) key ≡ (
      if bytes_eq key key
      then value_or (fresh.kv_store key) (codes "v")
      else Database.get_value fresh key)
get_value-set_value_example = Values.get_value-set_value fresh key (codes "v") (pos 0) key

on_expire-set_value_example :
    (Database.on_expire key false (Database.set_value fresh key (codes "v") (pos 100))).kv_store key
    ≡ fresh.kv_store key
on_expire-set_value_example = Values.on_expire-set_value fresh key (codes "v") (pos 100) key refl

remove_list_values-take_example : Database.remove_list_values listed key (pos 2) ≡ (
    if leb 2 (length abc)
    then ok (record listed { list_store = assign listed.list_store key (drop 2 abc) }, take 2 abc)
    else undefined)
unfolding assign bytes_eq
remove_list_values-take_example = Lists.remove_list_values-take listed key abc 2 refl

abbrev single : Database ℕ
single = record fresh { list_store = assign empty key (codes "a" ∷ []) }

remove_list_value_last_example :
    (db' : Database ℕ) × (Database.remove_list_value single key ≡ ok (db', codes "a"))
    × (Database.remove_list_value db' key ≡ undefined)
unfolding assign bytes_eq
remove_list_value_last_example = Lists.remove_list_value_last single key (codes "a") refl

get_list_range-select_example :
    Database.get_list_range listed key (negsuc 1) (pos 7)
    ≡ select
        (position (length (list_at listed key)) (negsuc 1))
        (position (length (list_at listed key)) (pos 7))
        0
        (list_at listed key)
unfolding assign bytes_eq
get_list_range-select_example =
    Range.get_list_range-select listed key (negsuc 1) (pos 7) (omega arith)

last_two : Database.get_list_range listed key (negsuc 1) (pos 7) ≡ codes "b" ∷ codes "c" ∷ []
unfolding Database.get_list_range assign bytes_eq to_int
last_two = refl

abbrev waiter : ℕ → Waiter ℕ
waiter id = record { id = id; handler = 70 + id; timer = some (pos 500) }

-- Two clients wait, and a value has just been pushed.
abbrev waited : Database ℕ
waited = record single { waiters = assign empty key (waiter 0 ∷ waiter 1 ∷ []); waiter_count = 2 }

waited-InOrder : InOrder waited
unfolding assign
waited-InOrder k = ground arith

abbrev notified : Database ℕ × Calls ℕ
notified = (
  record waited {
    list_store = assign waited.list_store key [];
    waiters = assign waited.waiters key (waiter 1 ∷ []);
    cancelled = 0 ∷ [];
  },
  (70, some (codes "a")) ∷ [],
)

on_timeout-notify_list_push_example : (Database.on_timeout key 0 false notified.0).1 ≡ []
unfolding Database.notify_list_push assign bytes_eq
on_timeout-notify_list_push_example =
    Once.on_timeout-notify_list_push waited notified.0 key notified.1 (waiter 0) (waiter 1 ∷ [])
      false waited-InOrder refl refl

timed_out : (Database.on_timeout key 1 false waited).1 ≡ (71, none) ∷ []
unfolding Database.on_timeout assign bytes_eq
timed_out = refl
