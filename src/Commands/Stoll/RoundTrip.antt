-- ===== src/Commands/Stoll/RoundTrip.antt =====
-- `std::stoll` reads what `std::to_string` prints.
use redis_cpp.Prelude.{
  ℕ, suc, ◌+◌, ◌*◌, ◌-◌, ◌<◌, ◌≡◌, refl, ◌∙◌, sym, [], ◌∷◌, Bool, true, false, arith, All, length,
  le→leb,
}
use redis_cpp.Prelude.Int.{ℤ, pos, negsuc, long_long_max, IsLongLong}
use redis_cpp.Prelude.Bytes.{Bytes}
use redis_cpp.Prelude.Outcome.{ok, invalid_argument}
use redis_cpp.Resp.Decimal.{
  to_string, to_string-IsDigit, to_string-pos, IsDigit, value, parse_digits, parse_digits-to_string,
  parse_digits_sound,
}
use redis_cpp.Resp.Integer.{to_string_signed}
use redis_cpp.Commands.Stoll.{stoll, digits, signed, leading}

leading-value : (s : Bytes) (num : ℕ) → All IsDigit s → leading s num ≡ value s num
unfolding leading
leading-value [] num h = refl
leading-value (c ∷ s) num h = ground (arith, leading-value s (num * 10 + (c - b'0')) h.1)

value-to_string : (n : ℕ) → value (to_string n) 0 ≡ n
value-to_string n =
    let parsed : parse_digits n invalid_argument (to_string n) 0 ≡ ok n =
      parse_digits-to_string n invalid_argument n ∙ rw (le→leb n n (omega arith)) refl in
    sym (parse_digits_sound n invalid_argument (to_string n) 0 (omega arith) parsed).1

digits_read :
    (minus : Bool) (s : Bytes)
    → 0 < length s
    → All IsDigit s
    → digits minus s ≡ signed minus (value s 0)
unfolding digits
digits_read minus [] h d = absurd (omega arith)
digits_read minus (c ∷ s) h d = ground (arith, leading-value (c ∷ s) 0 d)

stoll_digits : (s : Bytes) → 0 < length s → All IsDigit s → stoll s ≡ digits false s
unfolding stoll
stoll_digits [] h d = absurd (omega arith)
stoll_digits (c ∷ s) h d = ground arith

-- The text of a `long long` is read back.
pub stoll-to_string : (z : ℤ) → IsLongLong z → stoll (to_string_signed z) ≡ ok z
unfolding stoll to_string_signed signed
stoll-to_string (pos n) h =
    stoll_digits (to_string n) (to_string-pos n) (to_string-IsDigit n)
    ∙ digits_read false (to_string n) (to_string-pos n) (to_string-IsDigit n)
    ∙ rw (value-to_string n, le→leb n long_long_max (omega arith)) refl
stoll-to_string (negsuc n) h =
    digits_read true (to_string (suc n)) (to_string-pos (suc n)) (to_string-IsDigit (suc n))
    ∙ rw (value-to_string (suc n), le→leb n long_long_max (omega arith)) refl
