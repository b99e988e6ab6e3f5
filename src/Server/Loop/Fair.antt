-- ===== src/Server/Loop/Fair.antt =====
-- Those who wait for a list are served in the order in which they came.
use redis_cpp.Prelude.{
  ℕ, All, ◌+◌, ◌≤◌, ◌≡◌, refl, ap, arith, List, [], ◌∷◌, ◌++◌, append-nil, map, length,
  length-append, none,
}
use redis_cpp.Prelude.Int.{pos}
use redis_cpp.Prelude.Bytes.{Bytes, codes}
use redis_cpp.Prelude.Outcome.{ok}
use redis_cpp.Resp.Array
use redis_cpp.Resp.Integer
use redis_cpp.Database
use redis_cpp.Database.{Database, Floating, ServerConfig}
use redis_cpp.Commands.{BlpopHandler, Replies}
use redis_cpp.Commands.ListStore.{push}
use redis_cpp.Commands.Store.{Store, on_list, perform, await}
use redis_cpp.Commands.Store.Laws.{Waits, await-Waits, perform-Waits}
use redis_cpp.Commands.Store.Awaits.{Countable}
use redis_cpp.Commands.Store.Shows.{Shows}
use redis_cpp.Server.Loop.{run}
use redis_cpp.Server.Loop.Store.{Script, request, wait, events, answers, Allows, Sent, run-answers}

-- Each of the sessions sends BLPOP.
abbrev pub waits : Bytes → Bytes → List ℕ → Script
waits key text sessions = map (λ session. wait session key text) sessions

-- One session pushes the values, each by an RPUSH.
abbrev pub pushes : ℕ → Bytes → List Bytes → Script
pushes producer key values = map (λ v. request producer (on_list (push key (v ∷ [])))) values

-- The replies to the pushes: the length, and the value for the one who is served.
abbrev pub served : ℕ → Bytes → List ℕ → List Bytes → Replies
served producer key (session ∷ sessions) (v ∷ values) =
    (producer, Integer.to_resp (pos 1))
    ∷ (session, Array.to_resp (key ∷ v ∷ []))
    ∷ served producer key sessions values
served producer key [] values = []
served producer key (session ∷ sessions) [] = []

pushes-served :
    (store : Store) (producer : ℕ) (key : Bytes) (waiting : List (ℕ × ℕ)) (values : List Bytes)
    → Waits store key waiting
    → length values ≤ length waiting
    → answers store (pushes producer key values)
      ≡ served producer key (map (λ p. p.1) waiting) values
pushes-served store producer key [] [] h few = refl
pushes-served store producer key (p ∷ waiting) [] h few = refl
pushes-served store producer key [] (v ∷ values) h few = absurd (omega arith)
pushes-served store producer key ((i, session) ∷ waiting) (v ∷ values) h few =
    let (replies, h') = perform-Waits store producer i session key v waiting h in
    let store' = (perform store producer (on_list (push key (v ∷ [])))).0 in
    rw (replies, pushes-served store' producer key waiting values h' (omega arith)) refl

-- Those who wait, and one more.
joined :
    (waiting : List (ℕ × ℕ)) (i s : ℕ) (sessions : List ℕ)
    → map (λ p. p.1) (waiting ++ (i, s) ∷ []) ++ sessions ≡ map (λ p. p.1) waiting ++ s ∷ sessions
joined [] i s sessions = refl
joined (p ∷ waiting) i s sessions = ap (◌∷◌ p.1) (joined waiting i s sessions)

length-joined :
    (waiting : List (ℕ × ℕ)) (i s : ℕ) (sessions : List ℕ)
    → length (waiting ++ (i, s) ∷ []) + length sessions ≡ length waiting + length (s ∷ sessions)
length-joined waiting i s sessions = omega (arith, length-append waiting ((i, s) ∷ []))

waits-served :
    (store : Store) (producer : ℕ) (key text : Bytes) (waiting : List (ℕ × ℕ)) (sessions : List ℕ)
    (values : List Bytes)
    → Waits store key waiting
    → length values ≤ length waiting + length sessions
    → answers store (waits key text sessions ++ pushes producer key values)
      ≡ served producer key (map (λ p. p.1) waiting ++ sessions) values
waits-served store producer key text waiting [] values h few =
    rw (append-nil (map (λ p. p.1) waiting))
      (pushes-served store producer key waiting values h (omega arith))
waits-served store producer key text waiting (s ∷ sessions) values h few =
    let (none_yet, h', _) = await-Waits store s key waiting h in
    let ih =
      waits-served (await store s key).0 producer key text (waiting ++ (store.tickets, s) ∷ [])
        sessions values h' (rw (length-joined waiting store.tickets s sessions) few) in
    rw none_yet (rw (← joined waiting store.tickets s sessions) ih)

module _ (F : Floating) (producer : ℕ) (key text : Bytes) (t : F.Double) where
  -- Each push fits into one read.
  abbrev pub AllSent : List Bytes → Type 0
  AllSent = All (λ v. Sent (codes "RPUSH" ∷ key ∷ v ∷ []))

  pushes-Allows :
      (store : Store) (waiting : List (ℕ × ℕ)) (values : List Bytes)
      → Waits store key waiting
      → length values ≤ length waiting
      → AllSent values
      → Allows F store (pushes producer key values)
  pushes-Allows store waiting [] h few all = tt
  pushes-Allows store [] (v ∷ values) h few all = absurd (omega arith)
  pushes-Allows store ((i, session) ∷ waiting) (v ∷ values) h few all =
      let (replies, h') = perform-Waits store producer i session key v waiting h in
      let store' = (perform store producer (on_list (push key (v ∷ [])))).0 in
      ((rw h.0 (omega arith), all.0), pushes-Allows store' waiting values h' (omega arith) all.1)

  waits-Allows :
      (store : Store) (waiting : List (ℕ × ℕ)) (sessions : List ℕ) (values : List Bytes)
      → Waits store key waiting
      → length values ≤ length waiting + length sessions
      → F.stod text ≡ ok t
      → Countable F t
      → Sent (codes "BLPOP" ∷ key ∷ text ∷ [])
      → AllSent values
      → Allows F store (waits key text sessions ++ pushes producer key values)
  waits-Allows store waiting [] values h few read_as c sent all =
      pushes-Allows store waiting values h (omega arith) all
  waits-Allows store waiting (s ∷ sessions) values h few read_as c sent all =
      let (_, h', _) = await-Waits store s key waiting h in
      let few' = rw (← length-joined waiting store.tickets s sessions) at few in
      (
        ((t, read_as, c), sent),
        waits-Allows (await store s key).0 (waiting ++ (store.tickets, s) ∷ []) sessions values h'
            few' read_as c sent all,
      )

  -- On a server that starts, any clients that send BLPOP for a key are served in the order in which
  -- they came: each of the values that another client pushes after that, by one RPUSH each and no more
  -- than there are clients, is the answer to the next of them. Each request fits into one read.
  pub served_in_order :
      (config : ServerConfig) (sessions : List ℕ) (values : List Bytes)
      → F.stod text ≡ ok t
      → Countable F t
      → Sent (codes "BLPOP" ∷ key ∷ text ∷ [])
      → AllSent values
      → length values ≤ length sessions
      → (db' : Database BlpopHandler) × (run F
            (Database.create config)
            (events (waits key text sessions ++ pushes producer key values))
          ≡ ok (db', served producer key sessions values))
  unfolding Database.create
  served_in_order config sessions values read_as c sent all few =
      let store : Store = record {
        values = λ k. none;
        lists = λ k. [];
        waiting = λ k. [];
        tickets = 0;
        master_address = config.master_address;
      } in
      let shows : Shows (Database.create config) store =
        ((λ k. refl), (λ k. refl), (λ k. refl), refl, refl) in
      let (db', ran, _) =
        run-answers F (Database.create config) store
          (waits key text sessions ++ pushes producer key values) shows
          (waits-Allows store [] sessions values (refl, refl) (omega arith) read_as c sent all) in
      (
        db',
        rw ran (
            ap (λ r. ok (db', r))
              (waits-served store producer key text [] sessions values (refl, refl) (omega arith))),
      )
