-- ===== src/Resp/Decimal.antt =====
-- Decimal numbers: `std::to_string`, and the loop `num = num * 10 + (*p - '0')` of every decoder
-- under src/resp.
use redis_cpp.Prelude.{
  ℕ, zero, suc, ◌+◌, ◌-◌, ◌*◌, ◌/◌, ◌%◌, ◌≤◌, ◌<◌, ◌≡◌, refl, [], ◌∷◌, length, arith, ltb, leb,
  if◌then◌else◌, All,
}
use redis_cpp.Prelude.Bytes.{Bytes, codes, is_digit, Lacks}
use redis_cpp.Prelude.Outcome.{Outcome, Exception, ok, throws, undefined}

-- The digits of `n` in front of `out`, least digit first. The fuel bounds the number of digits.
digits_before : ℕ → ℕ → Bytes → Bytes
digits_before zero n out = out
digits_before (suc fuel) n out =
    let more = digits_before fuel (n / 10) ((b'0' + n % 10) ∷ out) in
    if ltb n 10 then (b'0' + n) ∷ out else more

-- `std::to_string` of an unsigned value: a number has fewer digits than `suc n`.
unfoldable pub to_string : ℕ → Bytes
unfolding digits_before
to_string n = digits_before (suc n) n []

-- A signed accumulator that passes `limit` overflows, which is undefined.
unfoldable pub parse_digits : ℕ → Exception → Bytes → ℕ → Outcome ℕ
parse_digits limit e [] num = ok num
parse_digits limit e (c ∷ s) num =
    let next = num * 10 + (c - b'0') in
    let rest = parse_digits limit e s next in
    if is_digit c then if leb next limit then rest else undefined else throws e

-- The number that digits spell behind `num`.
abbrev pub value : Bytes → ℕ → ℕ
value [] num = num
value (c ∷ s) num = value s (num * 10 + (c - b'0'))

abbrev pub IsDigit : ℕ → Type 0
IsDigit c = (b'0' ≤ c) × (c ≤ b'9')

digits_before-All :
    (fuel n : ℕ) (out : Bytes) → All IsDigit out → All IsDigit (digits_before fuel n out)
unfolding digits_before
digits_before-All zero n out h = h
digits_before-All (suc fuel) n out h =
    let rest =
      digits_before-All fuel (n / 10) ((b'0' + n % 10) ∷ out) ((omega arith, omega arith), h) in
    ground (arith, rest)

-- A printed number is digits only.
pub to_string-IsDigit : (n : ℕ) → All IsDigit (to_string n)
unfolding to_string
to_string-IsDigit n = digits_before-All (suc n) n [] tt

All-Lacks : (b : ℕ) (s : Bytes) → b < b'0' → All IsDigit s → Lacks b s
All-Lacks b [] lt h = tt
All-Lacks b (c ∷ s) lt h = (omega arith, All-Lacks b s lt h.1)

pub to_string-Lacks : (b n : ℕ) → b < b'0' → Lacks b (to_string n)
to_string-Lacks b n lt = All-Lacks b (to_string n) lt (to_string-IsDigit n)

digits_before-length : (fuel n : ℕ) (out : Bytes) → length out ≤ length (digits_before fuel n out)
unfolding digits_before
digits_before-length zero n out = omega arith
digits_before-length (suc fuel) n out =
    ground (arith, digits_before-length fuel (n / 10) ((b'0' + n % 10) ∷ out))

pub to_string-pos : (n : ℕ) → 0 < length (to_string n)
unfolding to_string digits_before
to_string-pos n = ground (arith, digits_before-length n (n / 10) ((b'0' + n % 10) ∷ []))

parse_last :
    (limit : ℕ) (e : Exception) (n : ℕ) (out : Bytes)
    → parse_digits limit e ((b'0' + n % 10) ∷ out) (n / 10)
      ≡ (if leb n limit then parse_digits limit e out n else undefined)
unfolding parse_digits
parse_last limit e n out = ground arith

parse-digits_before :
    (limit : ℕ) (e : Exception) (fuel n : ℕ) (out : Bytes)
    → n < fuel
    → parse_digits limit e (digits_before fuel n out) 0
      ≡ (if leb n limit then parse_digits limit e out n else undefined)
unfolding digits_before
parse-digits_before limit e zero n out h = absurd (omega arith)
parse-digits_before limit e (suc fuel) n out h = ground (
  arith,
  parse_last limit e n out,
  parse-digits_before limit e fuel (n / 10) ((b'0' + n % 10) ∷ out),
)

-- The digit loop reads a printed number back if it fits the accumulator, and overflows if not.
pub parse_digits-to_string :
    (limit : ℕ) (e : Exception) (n : ℕ)
    → parse_digits limit e (to_string n) 0 ≡ (if leb n limit then ok n else undefined)
unfolding to_string parse_digits
parse_digits-to_string limit e n = parse-digits_before limit e (suc n) n [] (omega arith)

le-value : (s : Bytes) (num : ℕ) → num ≤ value s num
le-value [] num = omega arith
le-value (c ∷ s) num = omega (arith, le-value s (num * 10 + (c - b'0')))

-- What the loop accepts is digits that spell the result, and the result fits.
pub parse_digits_sound :
    (limit : ℕ) (e : Exception) (s : Bytes) (num : ℕ) {r : ℕ}
    → num ≤ limit
    → parse_digits limit e s num ≡ ok r
    → All IsDigit s × (r ≡ value s num) × (r ≤ limit)
unfolding parse_digits
parse_digits_sound limit e [] num {r} fits h = ground arith
parse_digits_sound limit e (c ∷ s) num {r} fits h =
    ground (arith, parse_digits_sound limit e s (num * 10 + (c - b'0')) {r = r})

-- Digits whose value does not fit overflow the accumulator.
pub parse_digits_overflow :
    (limit : ℕ) (e : Exception) (s : Bytes) (num : ℕ)
    → All IsDigit s
    → num ≤ limit
    → limit < value s num
    → parse_digits limit e s num ≡ undefined
unfolding parse_digits
parse_digits_overflow limit e [] num h fits over = absurd (omega arith)
parse_digits_overflow limit e (c ∷ s) num h fits over =
    ground (arith, parse_digits_overflow limit e s (num * 10 + (c - b'0')) h.1)

print_120 : to_string 120 ≡ codes "120"
unfolding to_string
print_120 = refl
