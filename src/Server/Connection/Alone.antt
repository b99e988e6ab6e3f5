-- ===== src/Server/Connection/Alone.antt =====
-- Each connection has one operation under way, or waits in one queue, unless it has failed.
use redis_cpp.Prelude.{
  ℕ, ◌+◌, ◌-◌, ◌≤◌, ◌<◌, ◌≡◌, ◌==◌, refl, Bool, true, false, Option, none, [], ◌∷◌, List, arith,
}
use redis_cpp.Prelude.Bytes.{Bytes, Lacks}
use redis_cpp.Prelude.Outcome.{Ensures, Ensures-bind, anything}
use redis_cpp.Database
use redis_cpp.Database.{Database, Floating, ServerConfig}
use redis_cpp.Database.Quiet.{on_expire-waiters}
use redis_cpp.Database.Waiters.Conserved.{waiting}
use redis_cpp.Database.Waiters.Held.{Held, Held-same, tokens}
use redis_cpp.Commands.{BlpopHandler}
use redis_cpp.Commands.Settled.{bit, of_session, Served, serve_request-Served}
use redis_cpp.Commands.Router.{get_command}
use redis_cpp.Server.Request.{get_num_commands, parse_command, handle_request, after_star}
use redis_cpp.Server.Connection.{World, update, do_read, handle_accept, accept, listening, on_write}
use redis_cpp.Server.Connection.Deliver.{Load}

-- The load of a connection: none before it is accepted, and one from then on until it fails.
abbrev pub Alone : World → List ℕ → ℕ → ℕ → Type 0
Alone w failed t n =
    Load w t n × (n ≤ 1) × (w.accepting ≤ t → n ≡ 0) × (t < w.accepting → Lacks t failed → n ≡ 1)

abbrev pub AllAlone : World → List ℕ → Type 0
AllAlone w failed = (t : ℕ) → (n : ℕ) × Alone w failed t n

module _ (F : Floating) where
  pub handle_request-Served :
      (db : Database BlpopHandler) (session : ℕ) (req : Bytes) (t : ℕ) (place : Option Bytes)
      → Held (of_session t) db place
      → bit (session == t) + tokens place ≤ 1
      → Ensures (Served t (bit (session == t)) place) (handle_request F db session req)
  unfolding handle_request
  handle_request-Served db session req t place held le =
      Ensures-bind _ _ (get_num_commands req) _ (anything (get_num_commands req)) λ n _.
        Ensures-bind _ _ (after_star req) _ (anything (after_star req)) λ cursor _.
          Ensures-bind _ _ (parse_command req) _ (anything (parse_command req)) λ p _.
            Ensures-bind _ _ (get_command F p.0 p.1) _ (anything (get_command F p.0 p.1))
              λ cmd _. serve_request-Served t db place held F session cmd le

pub listening-AllAlone : (config : ServerConfig) → AllAlone (listening config) []
unfolding Database.create waiting
listening-AllAlone config t =
    (0, ((none, (λ k. refl), omega arith), omega arith, (λ h. refl), λ h l. absurd (omega arith)))

-- A step that leaves the queues as they were.
module _ (w : World) (failed : List ℕ) (alone : AllAlone w failed) (t : ℕ) where
  pub accept-Alone : (n : ℕ) × Alone (handle_accept false w) failed t n
  unfolding handle_accept accept do_read update
  accept-Alone =
      let (n, ((place, held, total), le, fresh, old)) = alone t in
      (
        n + bit (w.accepting == t),
        ((place, held, ground (arith)), ground arith, ground arith, ground arith),
      )

  pub refuse-Alone : (n : ℕ) × Alone (handle_accept true w) (w.accepting ∷ failed) t n
  unfolding handle_accept accept update
  refuse-Alone =
      let (n, ((place, held, total), le, fresh, old)) = alone t in
      (n, ((place, held, ground (arith)), ground arith, ground arith, ground arith))

  pub written-Alone :
      (s : ℕ) → (w.connections s).writing ≡ true → (n : ℕ) × Alone (on_write s false w) failed t n
  unfolding on_write do_read update
  written-Alone s h =
      let (n, ((place, held, total), le, fresh, old)) = alone t in
      (n, ((place, held, ground (arith)), ground arith, ground arith, ground arith))

  pub broken-Alone :
      (s : ℕ)
      → (w.connections s).writing ≡ true
      → (n : ℕ) × Alone (on_write s true w) (s ∷ failed) t n
  unfolding on_write update
  broken-Alone s h =
      let (n, ((place, held, total), le, fresh, old)) = alone t in
      (n - bit (s == t), ((place, held, ground (arith)), ground arith, ground arith, ground arith))

  pub failed_read-Alone :
      (s : ℕ)
      → 0 < (w.connections s).reads
      → (n : ℕ) × Alone
          (update w s (record (w.connections s) { reads = (w.connections s).reads - 1 }))
          (s ∷ failed)
          t
          n
  unfolding update
  failed_read-Alone s h =
      let (n, ((place, held, total), le, fresh, old)) = alone t in
      (n - bit (s == t), ((place, held, ground (arith)), ground arith, ground arith, ground arith))

  pub key_timer-Alone :
      (key : Bytes) (ec : Bool)
      → (n : ℕ) × Alone (record w { db = Database.on_expire key ec w.db }) failed t n
  key_timer-Alone key ec =
      let (n, ((place, held, total), le, fresh, old)) = alone t in
      (
        n,
        (
          (
            place,
            Held-same (of_session t) w.db (Database.on_expire key ec w.db) place
                (on_expire-waiters w.db key ec) held,
            total,
          ),
          le,
          fresh,
          old,
        ),
      )

  -- The load while a request is handled: its read has ended.
  pub taken-Load :
      (s : ℕ)
      → 0 < (w.connections s).reads
      → Load
          (update w s (record (w.connections s) { reads = (w.connections s).reads - 1 }))
          t
          ((alone t).0 - bit (s == t))
        × ((alone t).0 - bit (s == t) + bit (s == t) ≡ (alone t).0)
  unfolding update
  taken-Load s h =
      let (n, ((place, held, total), le, fresh, old)) = alone t in
      ((place, held, ground arith), ground arith)

  pub carried-Alone :
      (w' : World)
      → w'.accepting ≡ w.accepting
      → Load w' t (alone t).0
      → (n : ℕ) × Alone w' failed t n
  carried-Alone w' e load =
      let (n, (_, le, fresh, old)) = alone t in
      (n, (load, le, (λ h. fresh (rw e at h)), λ h. old (rw e at h)))
