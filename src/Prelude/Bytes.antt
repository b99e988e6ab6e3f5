-- ===== src/Prelude/Bytes.antt =====
-- `std::string` and character buffers: lists of bytes. A pointer into a buffer is the bytes from
-- it to the end of the buffer.
use Prim.Native.Char.{code}
use Prim.Native.String.{String}
use redis_cpp.Prelude.{
  ℕ, ◌-◌, ◌≡◌, ◌≢◌, refl, ◌↔◌, Bool, true, false, ◌&&◌, List, [], ◌∷◌, ◌++◌, Option, none, some,
  arith, leb, ◌==◌, if◌then◌else◌, All,
}

abbrev pub Bytes : Type 0
Bytes = List ℕ

-- The code points of a literal, which are its bytes for ASCII.
abbrev pub codes : String → Bytes
codes String.[] = []
codes (String.◌∷◌ c s) = code c ∷ codes s

abbrev pub cr : ℕ
cr = 13

abbrev pub nl : ℕ
nl = 10

abbrev pub crlf : Bytes
crlf = cr ∷ nl ∷ []

-- `operator==` of `std::string`.
unfoldable pub bytes_eq : Bytes → Bytes → Bool
bytes_eq [] [] = true
bytes_eq [] (b ∷ t) = false
bytes_eq (a ∷ s) [] = false
bytes_eq (a ∷ s) (b ∷ t) = a == b && bytes_eq s t

pub bytes_eq_refl : (s : Bytes) → bytes_eq s s ≡ true
unfolding bytes_eq
bytes_eq_refl [] = refl
bytes_eq_refl (a ∷ s) = ground (arith, bytes_eq_refl s)

pub bytes_eq_sound : (s t : Bytes) → bytes_eq s t ≡ true → s ≡ t
unfolding bytes_eq
bytes_eq_sound [] [] h = refl
bytes_eq_sound [] (b ∷ t) h = cc
bytes_eq_sound (a ∷ s) [] h = cc
bytes_eq_sound (a ∷ s) (b ∷ t) h = ground (arith, bytes_eq_sound s t)

pub bytes_eq_iff : (s t : Bytes) → (bytes_eq s t ≡ true) ↔ (s ≡ t)
bytes_eq_iff s t = (bytes_eq_sound s t, λ e. rw e (bytes_eq_refl t))

pub bytes_eq_ne : (s t : Bytes) → s ≢ t → bytes_eq s t ≡ false
bytes_eq_ne s t h = ground (arith, bytes_eq_iff s t)

-- `std::isdigit`.
abbrev pub is_digit : ℕ → Bool
is_digit c = leb b'0' c && leb c b'9'

-- `::toupper` in the C locale.
unfoldable pub to_upper : ℕ → ℕ
to_upper c = if leb b'a' c && leb c b'z' then c - 32 else c

-- `std::memchr`: the bytes before the first occurrence of `b`, and those behind it.
unfoldable pub memchr : ℕ → Bytes → Option (Bytes × Bytes)
memchr b [] = none
memchr b (c ∷ s) =
    if c == b
    then some ([], s)
    else elim (memchr b s) [ none ↦ none | some (before, after) ↦ some (c ∷ before, after) ]

abbrev pub Lacks : ℕ → Bytes → Type 0
Lacks b = All (λ c. c ≢ b)

pub memchr-append : (b : ℕ) (s t : Bytes) → Lacks b s → memchr b (s ++ b ∷ t) ≡ some (s, t)
unfolding memchr
memchr-append b [] t h = ground arith
memchr-append b (c ∷ s) t h = ground (arith, memchr-append b s t h.1)

-- What is found is where the byte stands, and it stands nowhere before.
pub memchr_sound :
    (b : ℕ) (s before after : Bytes)
    → memchr b s ≡ some (before, after)
    → (s ≡ before ++ b ∷ after) × Lacks b before
unfolding memchr
memchr_sound b [] before after h = cc
memchr_sound b (c ∷ s) [] after h = ground arith
memchr_sound b (c ∷ s) (d ∷ before) after h = ground (arith, memchr_sound b s before after)
