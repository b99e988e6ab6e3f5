-- ===== src/Commands/Router.antt =====
-- The router: src/commands/router.cc.
pub mod Arguments
pub mod ListCommands
pub mod StoreCommands
use redis_cpp.Prelude.{
  ℕ, ◌+◌, [], ◌∷◌, List, map, Option, none, some, Bool, ◌||◌, ◌&&◌, ◌==◌, leb, length, get_elem?,
  if◌then◌else◌,
}
use redis_cpp.Prelude.Bytes.{Bytes, codes, bytes_eq, to_upper}
use redis_cpp.Prelude.Outcome.{Outcome, ok, undefined, ◌>>=◌}
use redis_cpp.Database.{Floating}
use redis_cpp.Commands.{
  Command, make_ping, make_echo, make_set, make_get, make_rpush, make_lpush, make_lrange, make_llen,
  make_lpop, make_blpop, make_info, make_replconf,
}
use redis_cpp.Commands.Stoll.{stoll}

pub data CommandType : Type 0 where
  ping_type : CommandType
  echo_type : CommandType
  set_type : CommandType
  get_type : CommandType
  rpush_type : CommandType
  lpush_type : CommandType
  lrange_type : CommandType
  llen_type : CommandType
  lpop_type : CommandType
  blpop_type : CommandType
  info_type : CommandType
  replconf_type : CommandType
  unknown : CommandType

unfoldable pub to_command : Bytes → CommandType
to_command cmd =
    if bytes_eq cmd (codes "PING")
    then ping_type
    else if bytes_eq cmd (codes "ECHO")
    then echo_type
    else if bytes_eq cmd (codes "SET")
    then set_type
    else if bytes_eq cmd (codes "GET")
    then get_type
    else if bytes_eq cmd (codes "RPUSH")
    then rpush_type
    else if bytes_eq cmd (codes "LRANGE")
    then lrange_type
    else if bytes_eq cmd (codes "LPUSH")
    then lpush_type
    else if bytes_eq cmd (codes "LLEN")
    then llen_type
    else if bytes_eq cmd (codes "LPOP")
    then lpop_type
    else if bytes_eq cmd (codes "BLPOP")
    then blpop_type
    else if bytes_eq cmd (codes "INFO")
    then info_type
    else if bytes_eq cmd (codes "REPLCONF")
    then replconf_type
    else unknown

-- `args[i]`: undefined beyond the end.
arg : List Bytes → ℕ → Outcome Bytes
arg args i = elim (get_elem? args i) [ none ↦ undefined | some v ↦ ok v ]

module _ (F : Floating) where
  open F use {Double, stod}

  -- The cases of the `switch`, by the arguments. The two conversions of LRANGE are made in some
  -- order; here the first comes first.
  dispatch : CommandType → List Bytes → Outcome (Command Double)
  unfolding arg
  dispatch ping_type (a ∷ args) = ok (make_ping (some a))
  dispatch ping_type [] = ok (make_ping none)
  dispatch echo_type (a ∷ args) = ok (make_echo a)
  dispatch echo_type [] = ok (make_ping none)
  dispatch get_type (a ∷ args) = ok (make_get a)
  dispatch get_type [] = ok (make_ping none)
  dispatch set_type (a ∷ args) = do
    value ← arg (a ∷ args) 1
    option ← if leb 4 (length (a ∷ args)) then arg (a ∷ args) 2 else ok []
    if leb 4 (length (a ∷ args)) && (bytes_eq option (codes "PX") || bytes_eq option (codes "EX"))
        then (arg (a ∷ args) 3 >>= λ expiration. ok (make_set a value (some expiration)))
        else ok (make_set a value none)
  dispatch set_type [] = ok (make_ping none)
  dispatch rpush_type (a ∷ args) = ok (make_rpush a args)
  dispatch rpush_type [] = ok (make_ping none)
  dispatch lrange_type (a ∷ args) = do
    start ← arg (a ∷ args) 1 >>= stoll
    stop ← arg (a ∷ args) 2 >>= stoll
    ok (make_lrange a start stop)
  dispatch lrange_type [] = ok (make_ping none)
  dispatch lpush_type (a ∷ args) = ok (make_lpush a args)
  dispatch lpush_type [] = ok (make_ping none)
  dispatch llen_type (a ∷ args) = ok (make_llen a)
  dispatch llen_type [] = ok (make_ping none)
  dispatch lpop_type (a ∷ args) =
      if length (a ∷ args) == 2
      then (arg (a ∷ args) 1 >>= stoll >>= λ count. ok (make_lpop a (some count)))
      else ok (make_lpop a none)
  dispatch lpop_type [] = ok (make_ping none)
  dispatch blpop_type (a ∷ args) =
      arg (a ∷ args) 1 >>= stod >>= λ timeout. ok (make_blpop a timeout)
  dispatch blpop_type [] = ok (make_ping none)
  dispatch info_type (a ∷ args) = ok (make_info (some a))
  dispatch info_type [] = ok (make_info none)
  dispatch replconf_type args = ok make_replconf
  dispatch unknown args = ok (make_ping none)

  unfoldable pub get_command : Bytes → List Bytes → Outcome (Command Double)
  unfolding dispatch
  get_command cmd_name args = dispatch (to_command (map to_upper cmd_name)) args
