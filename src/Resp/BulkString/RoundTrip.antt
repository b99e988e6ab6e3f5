-- ===== src/Resp/BulkString/RoundTrip.antt =====
-- `decode` after `to_resp`.
use redis_cpp.Prelude.{
  ℕ, ◌+◌, ◌≤◌, ◌≡◌, ◌∷◌, ◌++◌, append_assoc, length, length-append, take-length_append, arith,
  le→leb,
}
use redis_cpp.Prelude.Int.{int_max}
use redis_cpp.Prelude.Bytes.{Bytes, cr, nl, crlf, memchr-append}
use redis_cpp.Prelude.Outcome.{ok, non_numeric_length}
use redis_cpp.Resp.Decimal.{to_string, to_string-Lacks, to_string-pos, parse_digits-to_string}
use redis_cpp.Resp.BulkString.{bulk_string, decode, length_end, content, to_resp}

pub length-to_resp : (v : Bytes) → length (to_resp v) ≡ length (to_string (length v)) + length v + 5
unfolding to_resp
length-to_resp v =
    omega (arith, length-append (to_string (length v)) (crlf ++ (v ++ crlf)), length-append v crlf)

content_lem :
    (k : ℕ) (v rest : Bytes)
    → content k (v ++ (crlf ++ rest)) (length v) ≡ ok (bulk_string v, k + length v + 2)
unfolding content
content_lem k v rest =
    ground (arith, length-append v (crlf ++ rest), take-length_append v (crlf ++ rest))

-- A string of at most `INT_MAX` bytes, any bytes, is read back with its own frame consumed, whatever
-- follows it.
pub decode-to_resp :
    (v rest : Bytes)
    → length v ≤ int_max
    → decode (to_resp v ++ rest) ≡ ok (bulk_string v, length (to_resp v))
unfolding decode to_resp length_end
decode-to_resp v rest h =
    let n = to_string (length v) in
    let shape : (n ++ (crlf ++ (v ++ crlf))) ++ rest ≡ n ++ cr ∷ (nl ∷ (v ++ (crlf ++ rest))) =
      simp append_assoc in
    rw
      (
        shape,
        memchr-append cr n (nl ∷ (v ++ (crlf ++ rest)))
            (to_string-Lacks cr (length v) (omega arith)),
      )
      (rw (parse_digits-to_string int_max non_numeric_length (length v), le→leb _ _ h)
        (ground (
          arith,
          content_lem (1 + length n + 2) v rest,
          length-append n (crlf ++ (v ++ crlf)),
          length-append v crlf,
          length-append n (cr ∷ nl ∷ (v ++ cr ∷ nl ∷ rest)),
          to_string-pos (length v),
          length-append v (cr ∷ nl ∷ rest),
        )))
