-- ===== src/Server/Loop/Stops.antt =====
-- How the process ends.
use redis_cpp.Prelude.{
  ℕ, ◌<◌, ◌≡◌, ◌≢◌, ◌⊎◌, inl, inr, refl, List, [], ◌∷◌, ◌++◌, ◌-◌, take, length, length-take, arith,
  false,
}
use redis_cpp.Prelude.Bytes.{Bytes}
use redis_cpp.Prelude.Outcome.{ok, throws, ◌>>=◌, missing_star, >>=-ok}
use redis_cpp.Database.{Database, Floating}
use redis_cpp.Commands.{BlpopHandler, Replies, Result}
use redis_cpp.Server.Request.{handle_request, get_num_commands, max_read}
use redis_cpp.Server.Loop.{Event, read, step, run}

-- No request: it is too short, or does not begin with a star.
abbrev pub IsNoRequest : Bytes → Type 0
IsNoRequest [] = Unit {0}
IsNoRequest (c ∷ s) = (length (c ∷ s) < 4) ⊎ (c ≢ b'*')

get_num_commands_refuses :
    (req : Bytes) → IsNoRequest req → get_num_commands req ≡ throws missing_star
unfolding get_num_commands
get_num_commands_refuses [] h = refl
get_num_commands_refuses (c ∷ s) (inl h) = ground arith
get_num_commands_refuses (c ∷ s) (inr h) = ground arith

taken : (req : Bytes) → IsNoRequest req → IsNoRequest (take max_read req)
taken [] h = tt
taken (c ∷ s) (inl h) = inl (omega (arith, length-take (max_read - 1) s))
taken (c ∷ s) (inr h) = inr h

module _ (F : Floating) where
  run-refused :
      (db : Database BlpopHandler) (session : ℕ) (req : Bytes) (more : List Event)
      → IsNoRequest req
      → run F db (read session false req ∷ more) ≡ throws missing_star
  unfolding run step handle_request
  run-refused db session req more h =
      rw (get_num_commands_refuses (take max_read req) (taken req h))

  -- Whatever the server has done so far, a read that is no request ends the process by an exception
  -- that nothing catches: no later event of any client is handled, and the store is lost.
  pub run_no_request :
      (db db' : Database BlpopHandler) (es : List Event) (replies : Replies) (session : ℕ)
      (req : Bytes) (more : List Event)
      → run F db es ≡ ok (db', replies)
      → IsNoRequest req
      → run F db (es ++ read session false req ∷ more) ≡ throws missing_star
  unfolding run
  run_no_request db db' [] replies session req more h bad = run-refused db session req more bad
  run_no_request db db' (e ∷ es) replies session req more h bad =
      let (r, stepped, ran) = >>=-ok (step F db e) (rest es) h in
      let (r', ran', _) = >>=-ok (run F r.0 es) (λ r'. ok (r'.0, r.1 ++ r'.1)) ran in
      rw (stepped, run_no_request r.0 r'.0 es r'.1 session req more ran' bad)
    where
      rest : List Event → Database BlpopHandler × Replies → Result
      rest es (d, replies) = run F d es >>= λ (d', more). ok (d', replies ++ more)
