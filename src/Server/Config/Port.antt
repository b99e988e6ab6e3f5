-- ===== src/Server/Config/Port.antt =====
-- The option `--port`.
use redis_cpp.Prelude.{◌≡◌, refl, suc, le→leb, arith}
use redis_cpp.Prelude.Int.{ℤ, IsInt, IsLongLong, pos_part, neg_part, int_max}
use redis_cpp.Prelude.Outcome.{Exception, ok, throws}
use redis_cpp.Resp.Integer.{to_string_signed}
use redis_cpp.Commands.Stoll.RoundTrip.{stoll-to_string}
use redis_cpp.Server.Config.{stoi, port_val}

IsInt-IsLongLong : (z : ℤ) → IsInt z → IsLongLong z
IsInt-IsLongLong z h = omega arith

-- The text of an `int` is read back by `std::stoi`.
pub stoi-to_string : (z : ℤ) → IsInt z → stoi (to_string_signed z) ≡ ok z
unfolding stoi
stoi-to_string z h =
    rw
      (
        stoll-to_string z (IsInt-IsLongLong z h),
        le→leb (pos_part z) int_max h.0,
        le→leb (neg_part z) (suc int_max) h.1,
      )
      refl

-- An option that is no `int` to argparse is read from its text.
pub port_val-to_string :
    (e : Exception) (z : ℤ) → IsInt z → port_val (throws e) (to_string_signed z) ≡ ok z
unfolding port_val
port_val-to_string e z h = stoi-to_string z h
