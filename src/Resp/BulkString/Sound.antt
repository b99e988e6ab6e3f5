-- ===== src/Resp/BulkString/Sound.antt =====
-- What `decode` accepts.
use redis_cpp.Prelude.{
  ℕ, ◌+◌, ◌≤◌, ◌≡◌, sym, ap, [], ◌∷◌, ◌++◌, inl, inr, length, take, drop, take-append-drop,
  length-take, length-drop, length-append, ◌==◌, arith, All, Bool-cases, Option-cases, ==_iff,
}
use redis_cpp.Prelude.Int.{int_max}
use redis_cpp.Prelude.Bytes.{Bytes, cr, nl, crlf, memchr, memchr_sound}
use redis_cpp.Prelude.Outcome.{ok, >>=-ok}
use redis_cpp.Resp.Decimal.{IsDigit, value, parse_digits_sound}
use redis_cpp.Resp.BulkString.{BulkString, decode, length_end, content}

-- `input` is a frame of `bs`: a dollar sign, digits that spell the length of the value, a line end,
-- the value, and `rest`, whose first two bytes the frame takes for its own.
pub record IsFrame (input : Bytes) (bs : BulkString) (consumed : ℕ) : Type 0 where
  pub digits : Bytes
  pub rest : Bytes
  pub shape : input ≡ b'$' ∷ (digits ++ (crlf ++ (bs.value ++ rest)))
  pub numeric : All IsDigit digits
  pub exact : value digits 0 ≡ length bs.value
  pub fits : length bs.value ≤ int_max
  pub ended : 2 ≤ length rest
  pub total : consumed ≡ length digits + length bs.value + 5

content_sound :
    (k : ℕ) (start : Bytes) (len : ℕ) (bs : BulkString) (n : ℕ)
    → content k start len ≡ ok (bs, n)
    → (bs.value ≡ take len start) × (n ≡ k + len + 2) × (len + 2 ≤ length start)
unfolding content
content_sound k start len bs n h = ground arith

length_end_sound :
    (digits after : Bytes) (bs : BulkString) (n : ℕ)
    → length_end digits after ≡ ok (bs, n)
    → IsFrame (b'$' ∷ (digits ++ cr ∷ after)) bs n
unfolding length_end
length_end_sound digits [] bs n h = cc
length_end_sound digits (c ∷ start) bs n h = elim (Bool-cases (c == nl)) [
  | inl e ↦
      let (len, read, rest_ok) = >>=-ok _ _ (rw (e, length_end) at h) in
      let (text, total, room) = content_sound _ start len bs n rest_ok in
      let (numeric, exact, fits) = parse_digits_sound int_max _ digits 0 (omega arith) read in
      let size : length (take len start) ≡ len = omega (arith, length-take len start) in
      record {
        digits = digits;
        rest = drop len start;
        shape = rw (text, take-append-drop len start, (==_iff c nl).0 e);
        numeric = numeric;
        exact = rw (text, size) (sym exact);
        fits = rw (text, size) fits;
        ended = omega (arith, length-drop len start);
        total = rw (text, size) (omega arith);
      }
  | inr e ↦ absurd (ground arith)
]

-- What is accepted is a frame, its consumed bytes lie in the buffer, and no digit of the length was
-- lost to an overflow. The two bytes that end the frame may be any.
pub decode_sound :
    (input : Bytes) (bs : BulkString) (consumed : ℕ)
    → decode input ≡ ok (bs, consumed)
    → IsFrame input bs consumed
unfolding decode
decode_sound [] bs n h = absurd (cc)
decode_sound (c ∷ s) bs n h = elim (Option-cases (memchr cr s)) [
  | inl e ↦ absurd (ground arith)
  | inr ((digits, after), e) ↦
      let inner : length_end digits after ≡ ok (bs, n) = ground arith in
      let dollar : c ≡ b'$' = ground arith in
      let (split, _) = memchr_sound cr s digits after e in
      rw (dollar, split) (length_end_sound digits after bs n inner)
]

pub consumed-le :
    (input : Bytes) (bs : BulkString) (consumed : ℕ)
    → IsFrame input bs consumed
    → consumed ≤ length input
consumed-le input bs n f = omega (
  arith,
  ap length f.shape,
  length-append f.digits (crlf ++ (bs.value ++ f.rest)),
  length-append bs.value f.rest,
)
