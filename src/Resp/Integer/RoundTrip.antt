-- ===== src/Resp/Integer/RoundTrip.antt =====
-- `decode` after `to_resp`, and `encode` against it.
use redis_cpp.Prelude.{
  ℕ, suc, ◌+◌, ◌≤◌, ◌<◌, ◌≡◌, ◌≢◌, refl, ap, [], ◌∷◌, ◌++◌, append_assoc, append-nil, length,
  if◌then◌else◌, length-append, arith, leb, le→leb, All,
}
use redis_cpp.Prelude.Int.{ℤ, pos, negsuc, long_long_max, IsLongLong}
use redis_cpp.Prelude.Bytes.{Bytes, cr, nl, crlf, Lacks, memchr-append}
use redis_cpp.Prelude.Outcome.{ok, undefined, non_digit_character, ◌>>=◌}
use redis_cpp.Resp.Decimal.{
  to_string, to_string-Lacks, to_string-pos, to_string-IsDigit, IsDigit, parse_digits-to_string,
}
use redis_cpp.Resp.Buffer.{write_all-resize}
use redis_cpp.Resp.Integer.{
  Integer, integer, encode, decode, to_resp, to_string_signed, number, negative, magnitude, negate,
  line_end,
}

-- Whatever the buffer held, `encode` leaves in it the text of `to_resp`.
pub encode_integer-to_resp :
    (i : Integer) → encode i ≡ ok (record i { encoded_buffer = to_resp i.value })
unfolding encode to_resp
encode_integer-to_resp i =
    let header = b':' ∷ (to_string_signed i.value ++ crlf) in
    rw (write_all-resize (header ∷ []) (length header) i.encoded_buffer (rw append-nil))
      (rw append-nil)

negative_lem : (s : Bytes) → 0 < length s → negative s ≡ (magnitude s >>= λ n. ok (negate n))
unfolding negative
negative_lem [] h = absurd (omega arith)
negative_lem (c ∷ s) h = refl

positive_lem :
    (s : Bytes) → 0 < length s → All IsDigit s → number s ≡ (magnitude s >>= λ n. ok (pos n))
unfolding number
positive_lem [] h d = absurd (omega arith)
positive_lem (c ∷ s) h d = ground arith

number-pos : (n : ℕ) → n ≤ long_long_max → number (to_string n) ≡ ok (pos n)
unfolding magnitude
number-pos n h = rw (
  positive_lem (to_string n) (to_string-pos n) (to_string-IsDigit n),
  magnitude,
  parse_digits-to_string long_long_max non_digit_character n,
  le→leb n long_long_max h,
)

-- The digits of -2^63 overflow the accumulator.
number-negsuc :
    (n : ℕ)
    → number (b'-' ∷ to_string (suc n))
      ≡ (if leb (suc n) long_long_max then ok (negsuc n) else undefined)
unfolding number negate magnitude
number-negsuc n =
    rw
      (
        negative_lem (to_string (suc n)) (to_string-pos (suc n)),
        magnitude,
        parse_digits-to_string long_long_max non_digit_character (suc n),
      )
      (ground arith)

to_string_signed-Lacks : (v : ℤ) → Lacks cr (to_string_signed v)
unfolding to_string_signed
to_string_signed-Lacks (pos n) = to_string-Lacks cr n (omega arith)
to_string_signed-Lacks (negsuc n) = (omega arith, to_string-Lacks cr (suc n) (omega arith))

number-to_string_signed :
    (v : ℤ) → IsLongLong v → v ≢ negsuc long_long_max → number (to_string_signed v) ≡ ok v
unfolding to_string_signed
number-to_string_signed (pos n) h ne = number-pos n (omega arith)
number-to_string_signed (negsuc n) h ne =
    let fits : suc n ≤ long_long_max = small n h.1 ne in
    rw (number-negsuc n, le→leb (suc n) long_long_max fits)
  where
    small :
        (n : ℕ)
        → suc n ≤ suc long_long_max
        → negsuc n ≢ negsuc long_long_max
        → suc n ≤ long_long_max
    small n h ne = ground arith

to_string_signed-pos : (v : ℤ) → 0 < length (to_string_signed v)
unfolding to_string_signed
to_string_signed-pos (pos n) = to_string-pos n
to_string_signed-pos (negsuc n) = omega arith

decode_text :
    (text rest : Bytes)
    → Lacks cr text
    → 0 < length text
    → decode (b':' ∷ ((text ++ crlf) ++ rest))
      ≡ (number text >>= λ n. ok (integer n, 1 + length text + 2))
unfolding decode line_end
decode_text text rest h long =
    let shape : (text ++ crlf) ++ rest ≡ text ++ cr ∷ (nl ∷ rest) = simp append_assoc in
    rw (shape, memchr-append cr text (nl ∷ rest) h)
      (ground (arith, length-append text (cr ∷ nl ∷ rest)))

-- A `long long` other than -2^63 is read back from its text, whatever follows it.
pub decode-integer-to_resp :
    (v : ℤ) (rest : Bytes)
    → IsLongLong v
    → v ≢ negsuc long_long_max
    → decode (to_resp v ++ rest) ≡ ok (integer v, length (to_resp v))
unfolding to_resp
decode-integer-to_resp v rest h ne =
    rw
      (
        decode_text (to_string_signed v) rest (to_string_signed-Lacks v) (to_string_signed-pos v),
        number-to_string_signed v h ne,
      )
      (ap (λ n. ok (integer v, n)) (omega (arith, length-append (to_string_signed v) crlf)))

-- -2^63 is the one `long long` whose own text `decode` cannot read: its digits overflow.
pub decode_min : (rest : Bytes) → decode (to_resp (negsuc long_long_max) ++ rest) ≡ undefined
unfolding to_resp to_string_signed
decode_min rest = rw (
  decode_text (b'-' ∷ to_string (suc long_long_max)) rest
      (to_string_signed-Lacks (negsuc long_long_max)) (omega arith),
  number-negsuc long_long_max,
)
