-- ===== src/Resp/BulkString.antt =====
-- The class `BulkString`: src/resp/bulkstring.hpp and src/resp/bulkstring.cc.
-- A pointer into `data` is the bytes from it on, so that `size` is a length; pointers are compared
-- as positions.
pub mod Encode
pub mod RoundTrip
pub mod Sound
use redis_cpp.Prelude.{
  ℕ, ◌+◌, [], ◌∷◌, ◌++◌, none, some, length, take, ltb, not, ◌||◌, ◌==◌, if◌then◌else◌,
}
use redis_cpp.Prelude.Int.{int_max}
use redis_cpp.Prelude.Bytes.{Bytes, cr, nl, crlf, memchr}
use redis_cpp.Prelude.Outcome.{
  Outcome, ok, throws, ◌>>=◌, invalid_bulk_string, invalid_bulk_string_header, non_numeric_length,
  content_out_of_bounds,
}
use redis_cpp.Resp.Decimal.{to_string, parse_digits}
use redis_cpp.Resp.Buffer.{Writer, resize, write_all}

pub record BulkString : Type 0 where
  pub value : Bytes
  pub encoded_buffer : Bytes

-- The constructor.
abbrev pub bulk_string : Bytes → BulkString
bulk_string value = record { value = value; encoded_buffer = [] }

-- The pointer that `encode` returns is that of the new `encoded_buffer`.
unfoldable pub encode : BulkString → Outcome BulkString
encode bs = do
  let header = b'$' ∷ (to_string (length bs.value) ++ crlf)
  let total_size = length header + length bs.value + 2
  let start : Writer = (resize (total_size + 1) bs.encoded_buffer, 0)
  w ← write_all (header ∷ bs.value ∷ (cr ∷ []) ∷ (nl ∷ []) ∷ (0 ∷ []) ∷ []) start
  ok (record bs { encoded_buffer = w.0 })

-- From the content on, with `len` known; `skipped` bytes stand before it.
content : ℕ → Bytes → ℕ → Outcome (BulkString × ℕ)
content skipped start len =
    if ltb (length start) (len + 2)
    then throws content_out_of_bounds
    else ok (bulk_string (take len start), skipped + len + 2)

-- From the byte behind `lenEnd` on.
length_end : Bytes → Bytes → Outcome (BulkString × ℕ)
unfolding content
length_end digits [] = throws invalid_bulk_string_header
length_end digits (c ∷ start) =
    if c == nl
    then parse_digits int_max non_numeric_length digits 0 >>= content (1 + length digits + 2) start
    else throws invalid_bulk_string_header

-- The string and `consumed`.
unfoldable pub decode : Bytes → Outcome (BulkString × ℕ)
unfolding length_end memchr
decode [] = throws invalid_bulk_string
decode (c ∷ len_start) =
    if ltb (length (c ∷ len_start)) 4 || not (c == b'$')
    then throws invalid_bulk_string
    else elim (memchr cr len_start) [
      | none ↦ throws invalid_bulk_string_header
      | some (digits, after) ↦ length_end digits after
    ]

unfoldable pub to_resp : Bytes → Bytes
to_resp value = b'$' ∷ (to_string (length value) ++ (crlf ++ (value ++ crlf)))
