-- ===== src/Tests/Store.antt =====
-- The server as a store, and the texts of numbers, at concrete inputs.
use redis_cpp.Prelude.{◌++◌, ◌*◌, false, ◌≡◌, refl, none, [], ◌∷◌, arith}
use redis_cpp.Prelude.Int.{pos, negsuc}
use redis_cpp.Prelude.Bytes.{Bytes, codes, bytes_eq}
use redis_cpp.Prelude.Outcome.{ok}
use redis_cpp.Resp.Integer
use redis_cpp.Resp.Integer.{to_string_signed}
use redis_cpp.Resp.Decimal.{to_string, parse_digits}
use redis_cpp.Resp.BulkString
use redis_cpp.Resp.Array
use redis_cpp.Database
use redis_cpp.Database.{Database}
use redis_cpp.Database.Range.{select}
use redis_cpp.Commands.{BlpopHandler}
use redis_cpp.Commands.ListStore
use redis_cpp.Commands.ListStore.{push, push_front, size, between, pop_first, pop}
use redis_cpp.Commands.Store.{
  Store, put, put_for, find, on_list, with_value, without_value, perform, serve_oldest, await,
  give_up, leave, reply,
}
use redis_cpp.Commands.Store.Shows.{Shows}
use redis_cpp.Commands.Store.Awaits.{Countable}
use redis_cpp.Server.Loop.{run}
use redis_cpp.Server.Loop.Store as StoreLoop
use redis_cpp.Server.Loop.Store.{Script, request, wait, expiry, timeout, events, answers}
use redis_cpp.Server.Loop.Fair
use redis_cpp.Server.Loop.Fair.{waits, pushes, served}
use redis_cpp.Tests.Database.{master}
use redis_cpp.Tests.Server.{seconds}

abbrev key : Bytes
key = codes "k"

abbrev jobs : Bytes
jobs = codes "jobs"

abbrev empty_store : Store
empty_store = record {
  values = λ k. none;
  lists = λ k. [];
  waiting = λ k. [];
  tickets = 0;
  master_address = codes "master";
}

-- Two clients share a key: the second SET does not replace the first value, but its time ends it. Two
-- more wait for a list: the first is served by a push, the time of the second runs out.
abbrev script : Script
script =
    request 1 (put key (codes "v"))
    ∷ request 2 (put_for key (codes "w") (pos 100))
    ∷ request 1 (find key)
    ∷ expiry key false
    ∷ request 1 (find key)
    ∷ wait 3 jobs (codes "5")
    ∷ wait 4 jobs (codes "7")
    ∷ request 1 (on_list (push jobs (codes "a" ∷ codes "b" ∷ codes "c" ∷ [])))
    ∷ timeout jobs 1 false
    ∷ request 2 (on_list (between jobs (negsuc 1) (negsuc 0)))
    ∷ request 2 (on_list (push_front jobs (codes "d" ∷ [])))
    ∷ request 1 (on_list (pop jobs 2))
    ∷ request 2 (on_list (size jobs))
    ∷ []

countable : (t : seconds.Double) → Countable seconds t
countable t p = (pos (t * 1000), refl)

script-answers :
    answers empty_store script
    ≡ (1, codes "+OK\r\n")
      ∷ (2, codes "+OK\r\n")
      ∷ (1, codes "$1\r\nv\r\n")
      ∷ (1, codes "$-1\r\n")
      ∷ (1, codes ":3\r\n")
      ∷ (3, codes "*2\r\n$4\r\njobs\r\n$1\r\na\r\n")
      ∷ (4, codes "*-1\r\n")
      ∷ (2, codes "*2\r\n$1\r\nb\r\n$1\r\nc\r\n")
      ∷ (2, codes ":3\r\n")
      ∷ (1, codes "*2\r\n$1\r\nd\r\n$1\r\nc\r\n")
      ∷ (2, codes ":1\r\n")
      ∷ []
unfolding reply ListStore.reply with_value without_value perform serve_oldest await give_up leave
    select bytes_eq Integer.to_resp Array.to_resp BulkString.to_resp to_string_signed to_string
script-answers = refl

served_in_order_example :
    (db' : Database BlpopHandler) × (run seconds (Database.create master) (
        events
          (waits jobs (codes "5") (7 ∷ 8 ∷ 9 ∷ []) ++ pushes 1 jobs (codes "a" ∷ codes "b" ∷ [])))
      ≡ ok (db', served 1 jobs (7 ∷ 8 ∷ 9 ∷ []) (codes "a" ∷ codes "b" ∷ [])))
unfolding parse_digits Array.to_resp BulkString.to_resp to_string
served_in_order_example =
    Fair.served_in_order seconds 1 jobs (codes "5") 5 master (7 ∷ 8 ∷ 9 ∷ [])
      (codes "a" ∷ codes "b" ∷ []) refl (countable 5) (omega arith) (omega arith) (omega arith)
