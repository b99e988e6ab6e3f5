-- ===== src/Resp/Array/RoundTrip.antt =====
-- `decode` after `to_resp`.
use redis_cpp.Prelude.{
  ◌≤◌, ◌≡◌, refl, [], ◌∷◌, ◌++◌, List, map, append_assoc, length, length-append, drop-length_append,
  arith, All, le→leb,
}
use redis_cpp.Prelude.Int.{int_max}
use redis_cpp.Prelude.Bytes.{Bytes, cr, nl, crlf, memchr-append}
use redis_cpp.Prelude.Outcome.{ok, invalid_array_length}
use redis_cpp.Resp.Decimal.{to_string, to_string-Lacks, to_string-pos, parse_digits-to_string}
use redis_cpp.Resp.Buffer.{concat}
use redis_cpp.Resp.BulkString
use redis_cpp.Resp.BulkString.{BulkString, bulk_string}
use redis_cpp.Resp.BulkString.RoundTrip as BulkRoundTrip
use redis_cpp.Resp.Array.{of_strings, decode, decode_elements, length_end, to_resp}

-- Each length fits an `int`.
abbrev pub IsShort : List Bytes → Type 0
IsShort = All (λ s. length s ≤ int_max)

-- The element loop reads back as many strings as were printed, and stops behind the last.
pub decode_elements-concat :
    (items : List Bytes) (rest : Bytes)
    → IsShort items
    → decode_elements (length items) (concat (map BulkString.to_resp items) ++ rest)
      ≡ ok (map bulk_string items, rest)
unfolding decode_elements
decode_elements-concat [] rest h = refl
decode_elements-concat (s ∷ items) rest h =
    let tail = concat (map BulkString.to_resp items) ++ rest in
    rw (
      append_assoc (BulkString.to_resp s) (concat (map BulkString.to_resp items)) rest,
      BulkRoundTrip.decode-to_resp s tail h.0,
      drop-length_append (BulkString.to_resp s) tail,
      decode_elements-concat items rest h.1,
    )

-- An array of at most `INT_MAX` strings of at most `INT_MAX` bytes is read back, with its own text
-- consumed, whatever follows it.
pub decode_array-to_resp :
    (items : List Bytes) (rest : Bytes)
    → length items ≤ int_max
    → IsShort items
    → decode (to_resp items ++ rest) ≡ ok (of_strings items, length (to_resp items))
unfolding decode to_resp length_end
decode_array-to_resp items rest h short =
    let n = to_string (length items) in
    let body = concat (map BulkString.to_resp items) in
    let shape : (n ++ (crlf ++ body)) ++ rest ≡ n ++ cr ∷ (nl ∷ (body ++ rest)) =
      simp append_assoc in
    rw
      (
        shape,
        memchr-append cr n (nl ∷ (body ++ rest)) (to_string-Lacks cr (length items) (omega arith)),
      )
      (rw
        (
          parse_digits-to_string int_max invalid_array_length (length items),
          le→leb _ _ h,
          decode_elements-concat items rest short,
        )
        (ground (
          arith,
          length-append n (crlf ++ body),
          length-append body rest,
          length-append n (cr ∷ nl ∷ (body ++ rest)),
          to_string-pos (length items),
        )))
