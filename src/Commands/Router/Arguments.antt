-- ===== src/Commands/Router/Arguments.antt =====
-- Which commands the router makes of which arguments.
use redis_cpp.Prelude.{ℕ, ◌≡◌, ◌≤◌, ◌+◌, refl, ◌⊎◌, inl, inr, List, [], ◌∷◌, map, some, none, arith}
use redis_cpp.Prelude.Bytes.{Bytes, codes, to_upper, bytes_eq}
use redis_cpp.Prelude.Outcome.{ok, undefined}
use redis_cpp.Database.{Floating}
use redis_cpp.Commands.{make_set, make_get}
use redis_cpp.Commands.Router.{get_command, to_command, dispatch}

-- The same letter in lower and in upper case.
abbrev Cases : ℕ → ℕ → Type 0
Cases c d = (b'a' ≤ c) × (c ≤ b'z') × (c ≡ d + 32)

-- Byte by byte the same, but for the case of letters.
abbrev pub SameLetters : Bytes → Bytes → Type 0
SameLetters [] [] = Unit
SameLetters [] (d ∷ t) = ⊥
SameLetters (c ∷ s) [] = ⊥
SameLetters (c ∷ s) (d ∷ t) = ((c ≡ d) ⊎ (Cases c d ⊎ Cases d c)) × SameLetters s t

to_upper_case : (c d : ℕ) → (c ≡ d) ⊎ (Cases c d ⊎ Cases d c) → to_upper c ≡ to_upper d
unfolding to_upper
to_upper_case c d (inl e) = ground arith
to_upper_case c d (inr (inl e)) = ground arith
to_upper_case c d (inr (inr e)) = ground arith

to_upper_letters : (s t : Bytes) → SameLetters s t → map to_upper s ≡ map to_upper t
to_upper_letters [] [] h = refl
to_upper_letters [] (d ∷ t) h = absurd h
to_upper_letters (c ∷ s) [] h = absurd h
to_upper_letters (c ∷ s) (d ∷ t) h = cc (to_upper_case c d h.0, to_upper_letters s t h.1)

module _ (F : Floating) where
  -- Names of commands that differ in the case of letters at most are routed alike.
  pub get_command_case :
      (name name' : Bytes) (args : List Bytes)
      → SameLetters name name'
      → get_command F name args ≡ get_command F name' args
  unfolding get_command
  get_command_case name name' args h = rw (to_upper_letters name name' h)

  -- SET, LRANGE and BLPOP with a key alone read an argument that is not there.
  pub get_command_key_only :
      (name key : Bytes)
      → (map to_upper name ≡ codes "SET")
        ⊎ (map to_upper name ≡ codes "LRANGE")
        ⊎ (map to_upper name ≡ codes "BLPOP")
      → get_command F name (key ∷ []) ≡ undefined
  unfolding get_command dispatch to_command bytes_eq
  get_command_key_only name key (inl e) = rw e
  get_command_key_only name key (inr (inl e)) = rw e
  get_command_key_only name key (inr (inr e)) = rw e

  -- With EX and with PX the same command is made: the seconds of the first are taken for
  -- milliseconds.
  pub get_command_ex :
      (name key value time : Bytes)
      → map to_upper name ≡ codes "SET"
      → (get_command F name (key ∷ value ∷ codes "EX" ∷ time ∷ [])
          ≡ ok (make_set key value (some time)))
        × (get_command F name (key ∷ value ∷ codes "PX" ∷ time ∷ [])
            ≡ ok (make_set key value (some time)))
  unfolding get_command dispatch to_command bytes_eq
  get_command_ex name key value time e = (rw e, rw e)

  -- SET of a key and a value.
  pub get_command_set :
      (key value : Bytes)
      → get_command F (codes "SET") (key ∷ value ∷ []) ≡ ok (make_set key value none)
  unfolding get_command dispatch to_command bytes_eq to_upper
  get_command_set key value = refl

  pub get_command_get : (key : Bytes) → get_command F (codes "GET") (key ∷ []) ≡ ok (make_get key)
  unfolding get_command dispatch to_command bytes_eq to_upper
  get_command_get key = refl
