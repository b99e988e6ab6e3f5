-- ===== src/Commands/Classes.antt =====
-- The classes of src/commands, with their members and constructors. `db_` and `buff_` are not kept:
-- the first is the database that `serve_request` is given, the second is never used.
use redis_cpp.Prelude.{[], ◌∷◌, List, Option}
use redis_cpp.Prelude.Int.{ℤ}
use redis_cpp.Prelude.Bytes.{Bytes}

pub record PingCommand : Type 0 where
  pub message : Option Bytes

pub record EchoCommand : Type 0 where
  pub message : Bytes

pub record SetCommand : Type 0 where
  pub key : Bytes
  pub value : Bytes
  pub expiration : Option Bytes

pub record GetCommand : Type 0 where
  pub key : Bytes

pub record RpushCommand : Type 0 where
  pub key : Bytes
  pub element : List Bytes

pub record LpushCommand : Type 0 where
  pub key : Bytes
  pub element : List Bytes

pub record LrangeCommand : Type 0 where
  pub key : Bytes
  pub start : ℤ
  pub stop : ℤ

pub record LlenCommand : Type 0 where
  pub key : Bytes

pub record LpopCommand : Type 0 where
  pub key : Bytes
  pub count : Option ℤ

pub record BlpopCommand (Double : Type 0) : Type 0 where
  pub key : Bytes
  pub timeout : Double

pub record InfoCommand : Type 0 where
  pub section : Option Bytes

pub record ReplconfCommand : Type 0 where

-- What `std::unique_ptr<ICommand>` may point to.
pub data Command (Double : Type 0) : Type 0 where
  ping : PingCommand → Command Double
  echo : EchoCommand → Command Double
  set : SetCommand → Command Double
  get : GetCommand → Command Double
  rpush : RpushCommand → Command Double
  lpush : LpushCommand → Command Double
  lrange : LrangeCommand → Command Double
  llen : LlenCommand → Command Double
  lpop : LpopCommand → Command Double
  blpop : BlpopCommand Double → Command Double
  info : InfoCommand → Command Double
  replconf : ReplconfCommand → Command Double

-- The constructors of the classes.
module _ {Double : Type 0} where
  abbrev pub make_ping : Option Bytes → Command Double
  make_ping message = ping (record { message = message })

  abbrev pub make_echo : Bytes → Command Double
  make_echo message = echo (record { message = message })

  abbrev pub make_set : Bytes → Bytes → Option Bytes → Command Double
  make_set key value expiration = set (record { key = key; value = value; expiration = expiration })

  abbrev pub make_get : Bytes → Command Double
  make_get key = get (record { key = key })

  abbrev pub make_rpush : Bytes → List Bytes → Command Double
  make_rpush key element = rpush (record { key = key; element = element })

  abbrev pub make_lpush : Bytes → List Bytes → Command Double
  make_lpush key element = lpush (record { key = key; element = element })

  abbrev pub make_lrange : Bytes → ℤ → ℤ → Command Double
  make_lrange key start stop = lrange (record { key = key; start = start; stop = stop })

  abbrev pub make_llen : Bytes → Command Double
  make_llen key = llen (record { key = key })

  abbrev pub make_lpop : Bytes → Option ℤ → Command Double
  make_lpop key count = lpop (record { key = key; count = count })

  abbrev pub make_blpop : Bytes → Double → Command Double
  make_blpop key timeout = blpop (record { key = key; timeout = timeout })

  abbrev pub make_info : Option Bytes → Command Double
  make_info section = info (record { section = section })

  abbrev pub make_replconf : Command Double
  make_replconf = replconf (record {})

  -- With one element.
  abbrev pub make_rpush_one : Bytes → Bytes → Command Double
  make_rpush_one key element = make_rpush key (element ∷ [])

  -- With one element.
  abbrev pub make_lpush_one : Bytes → Bytes → Command Double
  make_lpush_one key element = make_lpush key (element ∷ [])
