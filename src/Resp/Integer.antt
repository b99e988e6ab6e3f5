-- ===== src/Resp/Integer.antt =====
-- The class `Integer`: src/resp/integer.hpp and src/resp/integer.cc.
pub mod RoundTrip
use redis_cpp.Prelude.{
  ℕ, zero, suc, ◌+◌, [], ◌∷◌, ◌++◌, none, some, length, ltb, not, ◌||◌, ◌==◌, if◌then◌else◌,
}
use redis_cpp.Prelude.Int.{ℤ, pos, negsuc, long_long_max}
use redis_cpp.Prelude.Bytes.{Bytes, cr, nl, crlf, memchr}
use redis_cpp.Prelude.Outcome.{
  Outcome, ok, throws, ◌>>=◌, missing_colon, missing_integer_crlf, lone_minus, non_digit_character,
}
use redis_cpp.Resp.Decimal.{to_string, parse_digits}
use redis_cpp.Resp.Buffer.{Writer, resize, write_all}

-- A `long long`.
pub record Integer : Type 0 where
  pub value : ℤ
  pub encoded_buffer : Bytes

-- The constructor.
abbrev pub integer : ℤ → Integer
integer value = record { value = value; encoded_buffer = [] }

-- `std::to_string` of a signed value.
unfoldable pub to_string_signed : ℤ → Bytes
to_string_signed (pos n) = to_string n
to_string_signed (negsuc n) = b'-' ∷ to_string (suc n)

-- No terminator is written.
unfoldable pub encode : Integer → Outcome Integer
encode i = do
  let header = b':' ∷ (to_string_signed i.value ++ crlf)
  let start : Writer = (resize (length header) i.encoded_buffer, 0)
  w ← write_all (header ∷ []) start
  ok (record i { encoded_buffer = w.0 })

negate : ℕ → ℤ
negate zero = pos zero
negate (suc n) = negsuc n

-- The accumulator is a `long long`, also for a negative number.
magnitude : Bytes → Outcome ℕ
magnitude digits = parse_digits long_long_max non_digit_character digits 0

negative : Bytes → Outcome ℤ
unfolding magnitude negate
negative [] = throws lone_minus
negative (c ∷ s) = magnitude (c ∷ s) >>= λ n. ok (negate n)

-- The text between the colon and the line end.
number : Bytes → Outcome ℤ
unfolding negative magnitude
number [] = ok (pos 0)
number (c ∷ s) = if c == b'-' then negative s else magnitude (c ∷ s) >>= λ n. ok (pos n)

line_end : Bytes → Bytes → Outcome (Integer × ℕ)
unfolding number
line_end line [] = throws missing_integer_crlf
line_end line (c ∷ after) =
    if c == nl
    then (number line >>= λ n. ok (integer n, 1 + length line + 2))
    else throws missing_integer_crlf

unfoldable pub decode : Bytes → Outcome (Integer × ℕ)
unfolding line_end memchr
decode [] = throws missing_colon
decode (c ∷ num_start) =
    if ltb (length (c ∷ num_start)) 4 || not (c == b':')
    then throws missing_colon
    else elim (memchr cr num_start) [
      | none ↦ throws missing_integer_crlf
      | some (line, after) ↦ line_end line after
    ]

unfoldable pub to_resp : ℤ → Bytes
unfolding to_string_signed
to_resp value = b':' ∷ (to_string_signed value ++ crlf)
