-- ===== src/Server/Connection/Reached.antt =====
-- No step makes two operations of one connection overlap, and none loses a connection.
use redis_cpp.Prelude.{ℕ, ◌+◌, ◌-◌, ◌<◌, ◌≡◌, ◌==◌, Bool, true, false, ◌∷◌, ◌++◌, List, map, arith}
use mathlib.Core.Path.{subst}
use redis_cpp.Prelude.Bytes.{Bytes}
use redis_cpp.Prelude.Outcome.{Outcome, ok, Ensures-at, >>=-ok}
use redis_cpp.Database
use redis_cpp.Database.{Database, Floating, ServerConfig}
use redis_cpp.Commands.{BlpopHandler, Replies, answer}
use redis_cpp.Commands.Settled.{bit, on_timeout-Served}
use redis_cpp.Server.Request.{handle_request}
use redis_cpp.Server.Connection.{World, update, deliver, settle, on_read, on_waiter_timer}
use redis_cpp.Server.Connection.Deliver.{Load, settle-Load}
use redis_cpp.Server.Connection.Steps.{
  Step, accepted, read, written, key_timer, waiter_timer, Reach, start, later,
}
use redis_cpp.Server.Connection.Alone.{
  AllAlone, handle_request-Served, listening-AllAlone, accept-Alone, refuse-Alone, written-Alone,
  broken-Alone, failed_read-Alone, key_timer-Alone, taken-Load, carried-Alone,
}

module _ (F : Floating) (w : World) (failed : List ℕ) (alone : AllAlone w failed) where
  -- A request that is served leads to a new state: no reply is written on a connection that is being
  -- written.
  pub on_read-AllAlone :
      (s : ℕ) (req : Bytes) (db' : Database BlpopHandler) (replies : Replies)
      → 0 < (w.connections s).reads
      → handle_request F w.db s req ≡ ok (db', replies)
      → (w' : World) × (on_read F s false req w ≡ ok w')
        × (w'.db ≡ db')
        × ((w'.connections s).reads ≡ (w.connections s).reads - 1)
        × Load w' s (alone s).0
        × AllAlone w' failed
  unfolding on_read update
  on_read-AllAlone s req db' replies h e =
      let w1 = update w s (record (w.connections s) { reads = (w.connections s).reads - 1 }) in
      let load : ℕ → ℕ = λ t. (alone t).0 - bit (s == t) in
      let back : (t : ℕ) → load t + bit (s == t) ≡ (alone t).0 =
        λ t. (taken-Load w failed alone t s h).1 in
      let (w', ran, d, a, reads, loads) =
        Ensures-at _ (handle_request F w.db s req) (db', replies) e
          (settle-Load w1 load (λ t. bit (s == t)) (handle_request F w.db s req)
            (λ t. (taken-Load w failed alone t s h).0) (λ t. omega (arith, back t, (alone t).1.1))
            (handle_request-Served F w.db s req)) in
      (
        w',
        ran,
        d,
        ground (arith, reads s),
        rw (back s) at (loads s),
        λ t. carried-Alone w failed alone t w' a (rw (back t) at (loads t)),
      )

  -- So does the callback of a waiter's timer.
  pub on_waiter_timer-AllAlone :
      (key : Bytes) (id : ℕ) (ec : Bool)
      → (w' : World) × (on_waiter_timer key id ec w ≡ ok w') × AllAlone w' failed
  unfolding on_waiter_timer
  on_waiter_timer-AllAlone key id ec =
      let (db', calls) = Database.on_timeout key id ec w.db in
      let (w', ran, d, a, reads, loads) =
        settle-Load w (λ t. (alone t).0) (λ t. 0) (ok (db', map answer calls)) (λ t. (alone t).1.0)
          (λ t. omega (arith, (alone t).1.1))
          (λ t place held le. on_timeout-Served t w.db place held key id ec) in
      (
        w',
        ran,
        λ t.
            carried-Alone w failed alone t w' a
              (let (place, held, total) = loads t in (place, held, omega (arith, total))),
      )

module _ (F : Floating) where
  pub served-AllAlone :
      (w w' : World) (failed : List ℕ) (s : ℕ) (req : Bytes)
      → AllAlone w failed
      → 0 < (w.connections s).reads
      → on_read F s false req w ≡ ok w'
      → AllAlone w' failed
  unfolding on_read settle update
  served-AllAlone w w' failed s req alone h ran =
      let w1 = update w s (record (w.connections s) { reads = (w.connections s).reads - 1 }) in
      let (r, e, _) = >>=-ok (handle_request F w.db s req) (replied w1) ran in
      let (w'', ran', _, _, _, after) = on_read-AllAlone F w failed alone s req r.0 r.1 h e in
      let same : w'' ≡ w' = cc in subst (λ v. AllAlone v failed) same after
    where
      replied : World → Database BlpopHandler × Replies → Outcome World
      replied w1 (db, replies) = deliver replies (record w1 { db = db })

  failed-AllAlone :
      (w w' : World) (failed : List ℕ) (s : ℕ) (req : Bytes)
      → AllAlone w failed
      → 0 < (w.connections s).reads
      → on_read F s true req w ≡ ok w'
      → AllAlone w' (s ∷ failed)
  unfolding on_read
  failed-AllAlone w w' failed s req alone h ran =
      let w1 = update w s (record (w.connections s) { reads = (w.connections s).reads - 1 }) in
      let same : w1 ≡ w' = cc in
      subst (λ v. AllAlone v (s ∷ failed)) same (λ t. failed_read-Alone w failed alone t s h)

module _ {F : Floating} where
  Step-AllAlone :
      {w w' : World} {more : List ℕ} (failed : List ℕ)
      → AllAlone w failed
      → Step F w w' more
      → AllAlone w' (more ++ failed)
  Step-AllAlone failed alone (accepted w true) = refuse-Alone w failed alone
  Step-AllAlone failed alone (accepted w false) = accept-Alone w failed alone
  Step-AllAlone failed alone (read w w' s true req h fits ran) =
      failed-AllAlone F w w' failed s req alone h ran
  Step-AllAlone failed alone (read w w' s false req h fits ran) =
      served-AllAlone F w w' failed s req alone h ran
  Step-AllAlone failed alone (written w s true h) = λ t. broken-Alone w failed alone t s h
  Step-AllAlone failed alone (written w s false h) = λ t. written-Alone w failed alone t s h
  Step-AllAlone failed alone (key_timer w key ec) = λ t. key_timer-Alone w failed alone t key ec
  Step-AllAlone failed alone (waiter_timer w w' key id ec ran) =
      let (w'', ran', after) = on_waiter_timer-AllAlone F w failed alone key id ec in
      let same : w'' ≡ w' = cc in subst (λ v. AllAlone v failed) same after

  pub Reach-AllAlone :
      {config : ServerConfig} {w : World} {failed : List ℕ}
      → Reach F config w failed
      → AllAlone w failed
  Reach-AllAlone {config} start = listening-AllAlone config
  Reach-AllAlone (later {failed = failed} r st) = Step-AllAlone failed (Reach-AllAlone r) st
