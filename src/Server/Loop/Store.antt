-- ===== src/Server/Loop/Store.antt =====
-- The server as a store: what it does from the bytes of requests to the bytes of replies, against what
-- the commands promise.
use redis_cpp.Prelude.{
  ℕ, ◌≤◌, ◌≡◌, refl, ◌∙◌, List, [], ◌∷◌, ◌++◌, append-nil, arith, take, take_short, length, Bool,
  true, false, if◌then◌else◌,
}
use redis_cpp.Prelude.Int.{int_max}
use redis_cpp.Prelude.Bytes.{Bytes, codes}
use redis_cpp.Prelude.Outcome.{ok}
use redis_cpp.Resp.Array
use redis_cpp.Resp.Array.Size.{few_items, short_items}
use redis_cpp.Database
use redis_cpp.Database.{Database, Floating, ServerConfig}
use redis_cpp.Commands.{Command, BlpopHandler, Replies, serve_request, make_blpop}
use redis_cpp.Commands.Router.{get_command}
use redis_cpp.Commands.Store.{
  Store, StoreCommand, command, name, arguments, without_value, perform, await, give_up, Allowed,
}
use redis_cpp.Commands.Store.Shows.{Shows, on_expire-Shows}
use redis_cpp.Commands.Store.Waits.{on_timeout-Shows}
use redis_cpp.Commands.Store.Awaits.{Countable, await-Shows}
use redis_cpp.Commands.Store.Serves.{serve_request-perform}
use redis_cpp.Commands.Router.StoreCommands.{get_command-meant, get_command-blpop}
use redis_cpp.Server.Request.{handle_request, max_read}
use redis_cpp.Server.Request.RoundTrip.{handle_request-to_resp}
use redis_cpp.Server.Loop.{Event, read, key_timer, waiter_timer, step, run}

-- What happens at the server: a command of a session, a BLPOP of a session with the text of its
-- timeout, a session that ends, and timers that run out or find themselves cancelled.
pub data Occurrence : Type 0 where
  request : ℕ → StoreCommand → Occurrence
  wait : ℕ → Bytes → Bytes → Occurrence
  hang_up : ℕ → Bytes → Occurrence
  expiry : Bytes → Bool → Occurrence
  timeout : Bytes → ℕ → Bool → Occurrence

abbrev pub Script : Type 0
Script = List Occurrence

abbrev pub event : Occurrence → Event
event (request session c) = read session false (Array.to_resp (name c ∷ arguments c))
event (wait session key text) = read session false (Array.to_resp (codes "BLPOP" ∷ key ∷ text ∷ []))
event (hang_up session req) = read session true req
event (expiry key ec) = key_timer key ec
event (timeout key ticket ec) = waiter_timer key ticket ec

abbrev pub events : Script → List Event
events [] = []
events (o ∷ script) = event o ∷ events script

abbrev pub happens : Store → Occurrence → Store × Replies
happens store (request session c) = perform store session c
happens store (wait session key text) = await store session key
happens store (hang_up session req) = (store, [])
happens store (expiry key ec) = (if ec then store else without_value store key, [])
happens store (timeout key ticket ec) = if ec then (store, []) else give_up store key ticket

abbrev pub answers : Store → Script → Replies
answers store [] = []
answers store (o ∷ script) = (happens store o).1 ++ answers (happens store o).0 script

abbrev pub after : Store → Script → Store
after store [] = store
after store (o ∷ script) = after (happens store o).0 script

-- A request fits into one read.
abbrev pub Sent : List Bytes → Type 0
Sent texts = length (Array.to_resp texts) ≤ max_read

module _ (F : Floating) where
  open F use {Double, stod}

  abbrev pub Fits : Store → Occurrence → Type 0
  Fits store (request session c) = Allowed F store c × Sent (name c ∷ arguments c)
  Fits store (wait session key text) =
      ((t : Double) × (stod text ≡ ok t) × Countable F t) × Sent (codes "BLPOP" ∷ key ∷ text ∷ [])
  Fits store (hang_up session req) = Unit {0}
  Fits store (expiry key ec) = Unit {0}
  Fits store (timeout key ticket ec) = Unit {0}

  -- Each command is allowed when its turn comes, and its request fits into one read.
  abbrev pub Allows : Store → Script → Type 0
  Allows store [] = Unit {0}
  Allows store (o ∷ script) = Fits store o × Allows (happens store o).0 script

  handle_request-meant :
      (db : Database BlpopHandler) (session : ℕ) (n : Bytes) (args : List Bytes)
      (c : Command Double)
      → Sent (n ∷ args)
      → get_command F n args ≡ ok c
      → handle_request F db session (take max_read (Array.to_resp (n ∷ args)))
        ≡ serve_request F db session c
  handle_request-meant db session n args c sent meant =
      let whole = take_short max_read (Array.to_resp (n ∷ args)) sent in
      let few : length (n ∷ args) ≤ int_max = omega (arith, few_items max_read (n ∷ args) sent) in
      let short = short_items max_read int_max (n ∷ args) sent (omega arith) in
      rw whole
        (rw append-nil at (handle_request-to_resp F db session n args [] few short) ∙ rw meant refl)

  step-happens :
      (db : Database BlpopHandler) (store : Store) (o : Occurrence)
      → Shows db store
      → Fits store o
      → (db' : Database BlpopHandler) × (step F db (event o) ≡ ok (db', (happens store o).1))
        × Shows db' (happens store o).0
  unfolding step Database.on_expire Database.on_timeout
  step-happens db store (request session c) shows h =
      let (db', served, shows') = serve_request-perform F db store session c shows h.0 in
      let routed = get_command-meant F store c h.0 in
      (
        db',
        handle_request-meant db session (name c) (arguments c) (command c) h.1 routed ∙ served,
        shows',
      )
  step-happens db store (wait session key text) shows ((t, read_as, c), sent) =
      let (db', served, shows') = await-Shows F db store session key t shows c in
      let routed = get_command-blpop F key text t read_as in
      (
        db',
        handle_request-meant db session (codes "BLPOP") (key ∷ text ∷ []) (make_blpop key t) sent
              routed
            ∙ served,
        shows',
      )
  step-happens db store (hang_up session req) shows h = (db, refl, shows)
  step-happens db store (expiry key true) shows h = (db, refl, shows)
  step-happens db store (expiry key false) shows h =
      (Database.on_expire key false db, refl, on_expire-Shows db store key shows)
  step-happens db store (timeout key ticket true) shows h = (db, refl, shows)
  step-happens db store (timeout key ticket false) shows h =
      let (same, shows') = on_timeout-Shows db store key ticket shows in
      ((Database.on_timeout key ticket false db).0, rw same refl, shows')

  pub run-answers :
      (db : Database BlpopHandler) (store : Store) (script : Script)
      → Shows db store
      → Allows store script
      → (db' : Database BlpopHandler) × (run F db (events script) ≡ ok (db', answers store script))
        × Shows db' (after store script)
  unfolding run
  run-answers db store [] shows h = (db, refl, shows)
  run-answers db store (o ∷ script) shows h =
      let (db1, stepped, shows1) = step-happens db store o shows h.0 in
      let (db', ran, shows') = run-answers db1 (happens store o).0 script shows1 h.1 in
      (db', rw (stepped, ran) refl, shows')
