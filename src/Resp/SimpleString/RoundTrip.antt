-- ===== src/Resp/SimpleString/RoundTrip.antt =====
-- `decode` and `encode` of simple strings.
use redis_cpp.Prelude.{
  ◌+◌, ◌≡◌, [], ◌∷◌, ◌++◌, length, length-append, arith, Option-cases, Bool-cases, inl, inr, drop,
  ℕ, not, ◌||◌, ltb, ◌==◌,
}
use redis_cpp.Prelude.Bytes.{Bytes, cr, nl, crlf, Lacks, memchr, memchr-append, memchr_sound}
use redis_cpp.Prelude.Outcome.{ok, Defined}
use redis_cpp.Resp.Buffer.{write_all-resize}
use redis_cpp.Resp.SimpleString.{SimpleString, simple_string, encode, decode, line_end}

-- Whatever the buffer held, `encode` leaves in it a plus sign, the value, a line end and a
-- terminator, and every write stays inside the buffer.
pub encode_simple_lem :
    (str : SimpleString)
    → encode str ≡ ok (record str { encoded_buffer = b'+' ∷ (str.value ++ (crlf ++ 0 ∷ [])) })
unfolding encode
encode_simple_lem str =
    let chunks = (b'+' ∷ []) ∷ str.value ∷ (cr ∷ []) ∷ (nl ∷ []) ∷ (0 ∷ []) ∷ [] in
    rw (
      write_all-resize chunks (1 + length str.value + 2 + 1) str.encoded_buffer
        (omega (arith, length-append str.value (cr ∷ nl ∷ 0 ∷ []))))

-- A value without a carriage return is read back from its line, whatever follows the line.
pub decode-line :
    (v rest : Bytes)
    → Lacks cr v
    → decode (b'+' ∷ (v ++ (crlf ++ rest))) ≡ ok (simple_string v, length v + 3)
unfolding decode line_end
decode-line v rest h =
    rw (memchr-append cr (b'+' ∷ v) (nl ∷ rest) ((λ e. absurd (omega arith)), h))
      (ground (arith, length-append v (cr ∷ nl ∷ rest)))

-- A line of `str` stands first in `input`.
abbrev pub IsLine : Bytes → SimpleString → ℕ → Type 0
IsLine input str consumed =
    (rest : Bytes) × (input ≡ b'+' ∷ (str.value ++ (crlf ++ rest)))
    × Lacks cr str.value
    × (consumed ≡ length str.value + 3)

line_end_sound :
    (line after : Bytes) (str : SimpleString) (n : ℕ)
    → line_end line after ≡ ok (str, n)
    → (rest : Bytes) × (after ≡ nl ∷ rest) × (str.value ≡ drop 1 line) × (n ≡ length line + 2)
unfolding line_end
line_end_sound line [] str n h = absurd (cc)
line_end_sound line (c ∷ rest) str n h = (rest, ground arith, ground arith, ground arith)

IsLine-case :
    (line after : Bytes) (c : ℕ) (s : Bytes) (str : SimpleString) (n : ℕ)
    → c ∷ s ≡ line ++ cr ∷ after
    → Lacks cr line
    → c ≡ b'+'
    → line_end line after ≡ ok (str, n)
    → IsLine (c ∷ s) str n
IsLine-case [] after c s str n split lacks plus h = absurd (ground arith)
IsLine-case (x ∷ line) after c s str n split lacks plus h =
    let (rest, e, text, total) = line_end_sound (x ∷ line) after str n h in
    let first : x ≡ b'+' = cc in
    (rest, rw (text, split, e, first), rw text lacks.1, rw text (omega arith))

-- What is accepted is one whole line, and the value is its text up to the first carriage return.
pub decode-IsLine_sound :
    (input : Bytes) (str : SimpleString) (consumed : ℕ)
    → decode input ≡ ok (str, consumed)
    → IsLine input str consumed
unfolding decode
decode-IsLine_sound [] str n h = absurd (cc)
decode-IsLine_sound (c ∷ s) str n h = elim (Option-cases (memchr cr (c ∷ s))) [
  | inl e ↦ absurd (ground arith)
  | inr ((line, after), e) ↦
      let (split, lacks) = memchr_sound cr (c ∷ s) line after e in
      let plus : c ≡ b'+' = ground arith in
      let inner : line_end line after ≡ ok (str, n) = ground arith in
      IsLine-case line after c s str n split lacks plus inner
]

line_end-Defined : (line after : Bytes) → Defined (line_end line after)
unfolding line_end
line_end-Defined line [] = tt
line_end-Defined line (c ∷ after) = elim (Bool-cases (c == nl)) [
  | inl e ↦ rw e tt
  | inr e ↦ rw e tt
]

pub decode-Defined : (s : Bytes) → Defined (decode s)
unfolding decode
decode-Defined [] = tt
decode-Defined (c ∷ s) = elim (Bool-cases (ltb (length (c ∷ s)) 3 || not (c == b'+'))) [
  | inl e ↦ rw e tt
  | inr e ↦ elim (Option-cases (memchr cr (c ∷ s))) [
    | inl e' ↦ rw (e, e') tt
    | inr ((line, after), e') ↦ rw (e, e') (line_end-Defined line after)
  ]
]
