-- ===== src/Commands/Stoll.antt =====
-- `std::stoll` in base ten, as the commands use it: white space, a sign, then as many digits as
-- there are; the rest of the text is ignored.
pub mod RoundTrip
use redis_cpp.Prelude.{
  ℕ, zero, suc, ◌+◌, ◌*◌, ◌-◌, [], ◌∷◌, Bool, true, false, ◌||◌, ◌&&◌, ◌==◌, leb, if◌then◌else◌,
}
use redis_cpp.Prelude.Int.{ℤ, pos, negsuc, long_long_max}
use redis_cpp.Prelude.Bytes.{Bytes, is_digit}
use redis_cpp.Prelude.Outcome.{Outcome, ok, throws, invalid_argument, out_of_range}

abbrev is_space : ℕ → Bool
is_space c = c == 32 || (leb 9 c && leb c 13)

-- The number that the digits in front of `s` spell behind `num`.
leading : Bytes → ℕ → ℕ
leading [] num = num
leading (c ∷ s) num =
    let more = leading s (num * 10 + (c - b'0')) in if is_digit c then more else num

signed : Bool → ℕ → Outcome ℤ
signed true zero = ok (pos 0)
signed true (suc n) = if leb n long_long_max then ok (negsuc n) else throws out_of_range
signed false n = if leb n long_long_max then ok (pos n) else throws out_of_range

-- At least one digit has to follow the sign.
digits : Bool → Bytes → Outcome ℤ
unfolding leading signed
digits minus [] = throws invalid_argument
digits minus (c ∷ s) =
    if is_digit c then signed minus (leading (c ∷ s) 0) else throws invalid_argument

unfoldable pub stoll : Bytes → Outcome ℤ
unfolding digits
stoll [] = throws invalid_argument
stoll (c ∷ s) =
    if is_space c
    then stoll s
    else if c == b'-'
    then digits true s
    else if c == b'+'
    then digits false s
    else digits false (c ∷ s)
