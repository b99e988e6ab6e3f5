-- ===== src/Tests/History.antt =====
-- Histories of the database, at concrete operations.
use redis_cpp.Prelude.{ℕ, ◌+◌, ◌≡◌, ◌==◌, refl, Bool, false, none, some, [], ◌∷◌, List}
use redis_cpp.Prelude.Bytes.{Bytes, codes, bytes_eq}
use redis_cpp.Prelude.Outcome.{Outcome, ok, ◌>>=◌, Ensures}
use redis_cpp.Database
use redis_cpp.Database.{Database, Calls, queue}
use redis_cpp.Database.Table.{assign}
use redis_cpp.Database.Waiters.Conserved.{waiting}
use redis_cpp.Database.History.{Op, set_list, async_blpop, notify_list_push, on_timeout, run}
use redis_cpp.Database.History.Answered
use redis_cpp.Database.History.Answered.{asked, answers}
use redis_cpp.Tests.Database.{master}
use redis_cpp.Tests.Server.{seconds}

abbrev key : Bytes
key = codes "k"

-- Two clients, 70 and 71, wait; a push serves the first, and the second times out; then 70 asks
-- again.
abbrev two_clients : List (Op seconds ℕ)
two_clients =
    async_blpop key 0 70
    ∷ async_blpop key 5 71
    ∷ set_list key (codes "a" ∷ [])
    ∷ notify_list_push key
    ∷ on_timeout key 1 false
    ∷ async_blpop key 0 70
    ∷ []

abbrev is_70 : ℕ → Bool
is_70 h = h == 70

answered-asked_example :
    Ensures
      (λ (db, log).
        waiting is_70 (queue db key) + answers is_70 key log ≡ asked is_70 key two_clients)
      (run two_clients (Database.create master))
answered-asked_example = Answered.answered-asked is_70 key master two_clients

log_of : Outcome (Database ℕ × List (Bytes × Calls ℕ)) → Outcome (List (Bytes × Calls ℕ))
log_of m = m >>= λ (db, log). ok log

two_clients_log :
    log_of (run two_clients (Database.create master))
    ≡ ok (
        (key, [])
        ∷ (key, [])
        ∷ (key, [])
        ∷ (key, (70, some (codes "a")) ∷ [])
        ∷ (key, (71, none) ∷ [])
        ∷ (key, [])
        ∷ [])
unfolding log_of run Database.async_blpop Database.create Database.notify_list_push
    Database.set_list assign bytes_eq Database.on_timeout
two_clients_log = refl
