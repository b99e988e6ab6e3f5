-- ===== src/Prelude/Outcome.antt =====
-- What a C++ call does: it returns, throws, its behaviour is undefined, or it never returns.
use redis_cpp.Prelude.{◌≡◌, refl}

-- The exceptions of the program, one constructor for each message, those of `std::stoll` and
-- `std::stod`, and the one that asio throws when a read finds the connection closed.
pub data Exception : Type 0 where
  invalid_bulk_string : Exception
  invalid_bulk_string_header : Exception
  non_numeric_length : Exception
  content_out_of_bounds : Exception
  missing_plus : Exception
  missing_crlf : Exception
  missing_colon : Exception
  missing_integer_crlf : Exception
  lone_minus : Exception
  non_digit_character : Exception
  invalid_array : Exception
  invalid_array_header : Exception
  invalid_array_length : Exception
  missing_star : Exception
  non_digit_array_length : Exception
  missing_array_length : Exception
  invalid_header_crlf : Exception
  empty_array : Exception
  invalid_argument : Exception
  out_of_range : Exception
  not_pong : Exception
  end_of_file : Exception

pub data Outcome {ℓ} (A : Type ℓ) : Type ℓ where
  ok : A → Outcome A
  throws : Exception → Outcome A
  undefined : Outcome A
  never : Outcome A

infixl 5 ◌>>=◌
abbrev pub ◌>>=◌ {ℓ κ} : {A : Type ℓ} {B : Type κ} → Outcome A → (A → Outcome B) → Outcome B
ok a >>= f = f a
throws e >>= f = throws e
undefined >>= f = undefined
never >>= f = never

-- A bind that returns: its first part has returned, and what follows has too.
pub >>=-ok {ℓ κ} :
    {X : Type ℓ} {Y : Type κ} (first : Outcome X) (next : X → Outcome Y) {y : Y}
    → (first >>= next) ≡ ok y
    → (x : X) × (first ≡ ok x) × (next x ≡ ok y)
>>=-ok undefined next returned = cc
>>=-ok never next returned = cc
>>=-ok (throws e) next returned = cc
>>=-ok (ok x) next returned = (x, refl, returned)

-- What holds of the result, if there is one.
abbrev pub Ensures {ℓ κ} : {A : Type ℓ} → (A → Type κ) → Outcome A → Type κ
Ensures P (ok a) = P a
Ensures P (throws e) = Unit
Ensures P undefined = Unit
Ensures P never = Unit

pub Ensures-of_ok {ℓ κ} :
    {A : Type ℓ} (P : A → Type κ) (m : Outcome A) → ((a : A) → m ≡ ok a → P a) → Ensures P m
Ensures-of_ok P (ok a) h = h a refl
Ensures-of_ok P (throws e) h = tt
Ensures-of_ok P undefined h = tt
Ensures-of_ok P never h = tt

pub Ensures-weaken {ℓ κ κ'} :
    {A : Type ℓ} (P : A → Type κ) (Q : A → Type κ') (m : Outcome A)
    → ((a : A) → P a → Q a)
    → Ensures P m
    → Ensures Q m
Ensures-weaken P Q (ok a) k h = k a h
Ensures-weaken P Q (throws e) k h = tt
Ensures-weaken P Q undefined k h = tt
Ensures-weaken P Q never k h = tt

pub Ensures-bind {ℓ ℓ' κ κ'} :
    {A : Type ℓ} {B : Type ℓ'} (P : A → Type κ) (Q : B → Type κ') (m : Outcome A)
    (f : A → Outcome B)
    → Ensures P m
    → ((a : A) → P a → Ensures Q (f a))
    → Ensures Q (m >>= f)
Ensures-bind P Q (ok a) f h k = k a h
Ensures-bind P Q (throws e) f h k = tt
Ensures-bind P Q undefined f h k = tt
Ensures-bind P Q never f h k = tt

-- Of a part of which nothing need be known.
pub anything {ℓ} : {A : Type ℓ} (m : Outcome A) → Ensures (λ _. Unit {0}) m
anything m = Ensures-of_ok _ m (λ a e. tt)

pub Ensures-at {ℓ κ} :
    {A : Type ℓ} (P : A → Type κ) (m : Outcome A) (a : A) → m ≡ ok a → Ensures P m → P a
Ensures-at P m a e h = rw (e, Ensures) at h

-- The behaviour is defined: it returns, or throws.
abbrev pub Defined {ℓ} : {A : Type ℓ} → Outcome A → Type 0
Defined (ok a) = Unit
Defined (throws e) = Unit
Defined undefined = ⊥
Defined never = ⊥

pub Defined-bind {ℓ κ} :
    {A : Type ℓ} {B : Type κ} (m : Outcome A) (f : A → Outcome B)
    → Defined m
    → ((a : A) → m ≡ ok a → Defined (f a))
    → Defined (m >>= f)
Defined-bind (ok a) f h k = k a refl
Defined-bind (throws e) f h k = tt
Defined-bind undefined f h k = absurd h
Defined-bind never f h k = absurd h
