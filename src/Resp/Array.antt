-- ===== src/Resp/Array.antt =====
-- The class `RespArray`: src/resp/array.hpp and src/resp/array.cc.
pub mod Encode
pub mod RoundTrip
pub mod Size
use redis_cpp.Prelude.{
  ℕ, zero, suc, ◌+◌, ◌-◌, [], ◌∷◌, ◌++◌, List, map, none, some, length, drop, ltb, not, ◌||◌, ◌==◌,
  if◌then◌else◌,
}
use redis_cpp.Prelude.Int.{ℤ, int_max}
use redis_cpp.Prelude.Bytes.{Bytes, cr, nl, crlf, memchr}
use redis_cpp.Prelude.Outcome.{
  Outcome, ok, throws, undefined, ◌>>=◌, invalid_array, invalid_array_header, invalid_array_length,
}
use redis_cpp.Resp.Decimal.{to_string, parse_digits}
use redis_cpp.Resp.Buffer.{Writer, resize, write, memcpy, c_string, concat}
use redis_cpp.Resp.BulkString
use redis_cpp.Resp.BulkString.{BulkString, bulk_string}
use redis_cpp.Resp.Integer.{to_string_signed}

pub record RespArray : Type 0 where
  pub elements : List BulkString
  pub encoded_buffer : Bytes

-- The constructor from elements, and that from strings.
abbrev pub resp_array : List BulkString → RespArray
resp_array elements = record { elements = elements; encoded_buffer = [] }

abbrev pub of_strings : List Bytes → RespArray
of_strings strings = resp_array (map bulk_string strings)

-- `struct Arg`: what may stand in an initializer list.
pub data Arg : Type 0 where
  text : Bytes → Arg
  bulk : BulkString → Arg
  arithmetic : ℤ → Arg

arg_text : Arg → Bytes
arg_text (text s) = s
arg_text (bulk bs) = bs.value
arg_text (arithmetic n) = to_string_signed n

unfoldable pub of_args : List Arg → RespArray
unfolding arg_text
of_args init = of_strings (map arg_text init)

-- What `strlen` and `memcpy` see of an encoded element.
encoded_text : BulkString → Outcome Bytes
encoded_text el = do temp ← BulkString.encode el; c_string temp.encoded_buffer

total_size : List BulkString → ℕ → Outcome ℕ
unfolding encoded_text
total_size [] total = ok total
total_size (el ∷ els) total = encoded_text el >>= λ s. total_size els (total + length s)

write_elements : List BulkString → Writer → Outcome Writer
unfolding encoded_text
write_elements [] w = ok w
write_elements (el ∷ els) w = encoded_text el >>= λ s. write s w >>= write_elements els

unfoldable pub encode : RespArray → Outcome RespArray
unfolding total_size write_elements
encode arr = do
  let header = b'*' ∷ (to_string (length arr.elements) ++ crlf)
  total ← total_size arr.elements (length header)
  let start : Writer = (resize total [], 0)
  w ← write header start
  w ← write_elements arr.elements w
  buffer ← memcpy (resize (total + 1) w.0) total (0 ∷ [])
  ok (record arr { encoded_buffer = buffer })

-- The loop over `num` elements, with the cursor behind the last one.
unfoldable pub decode_elements : ℕ → Bytes → Outcome (List BulkString × Bytes)
decode_elements zero cursor = ok ([], cursor)
decode_elements (suc num) cursor = do
  (bs, consumed) ← BulkString.decode cursor
  (elements, end) ← decode_elements num (drop consumed cursor)
  ok (bs ∷ elements, end)

-- From the byte behind `lenEnd` on. That byte is read also where it is not in the buffer.
length_end : ℕ → Bytes → Bytes → Outcome (RespArray × ℕ)
unfolding decode_elements
length_end size digits [] = undefined
length_end size digits (c ∷ cursor) =
    if c == nl
    then (parse_digits int_max invalid_array_length digits 0 >>= λ num.
        decode_elements num cursor >>= λ (elements, end).
        ok (resp_array elements, size - length end))
    else throws invalid_array_header

-- The array and `consumed`.
unfoldable pub decode : Bytes → Outcome (RespArray × ℕ)
unfolding length_end memchr
decode [] = throws invalid_array
decode (c ∷ len_start) =
    if ltb (length (c ∷ len_start)) 3 || not (c == b'*')
    then throws invalid_array
    else elim (memchr cr len_start) [
      | none ↦ throws invalid_array_header
      | some (digits, after) ↦ length_end (length (c ∷ len_start)) digits after
    ]

unfoldable pub to_resp : List Bytes → Bytes
to_resp items = b'*' ∷ (to_string (length items) ++ (crlf ++ concat (map BulkString.to_resp items)))
