-- ===== src/Database/Range.antt =====
-- `getListRange` against the elements at the positions that it asks for.
use redis_cpp.Prelude.{
  ℕ, zero, suc, ◌+◌, ◌-◌, ◌≤◌, ◌<◌, ◌≡◌, refl, sym, ◌∙◌, List, [], ◌∷◌, length, take, drop, leb,
  ltb, leb→le, Bool-cases, inl, inr, arith, ◌&&◌, if◌then◌else◌,
}
use redis_cpp.Prelude.Int.{ℤ, pos, negsuc, to_int_pos, pos_part, int_max, ltb_ℤ, leb_ℤ, ◌+ℤ◌}
use redis_cpp.Prelude.Bytes.{Bytes}
use redis_cpp.Database.Vectors.{range}
use redis_cpp.Database.Lists.{list_at}
use redis_cpp.Database.{Database, get_list_range}

-- An index from the end of `size` elements, if it is negative.
abbrev pub position : ℕ → ℤ → ℤ
position size i = if ltb_ℤ i (pos 0) then pos size +ℤ i else i

-- The elements from position `first` to position `last`, both included; `i` is the position of the
-- head.
unfoldable pub select : ℤ → ℤ → ℕ → List Bytes → List Bytes
select first last i [] = []
select first last i (x ∷ xs) =
    if leb_ℤ first (pos i) && leb_ℤ (pos i) last
    then x ∷ select first last (suc i) xs
    else select first last (suc i) xs

take_zero : (k : ℕ) (xs : List Bytes) → k ≡ 0 → take k xs ≡ []
take_zero zero xs h = refl
take_zero (suc k) xs h = absurd (omega arith)

take_none : (k : ℕ) → take {A = Bytes} k [] ≡ []
take_none zero = refl
take_none (suc k) = refl

drop_past : (k : ℕ) (xs : List Bytes) → length xs ≤ k → drop k xs ≡ []
drop_past zero [] h = refl
drop_past zero (x ∷ xs) h = absurd (omega arith)
drop_past (suc k) [] h = refl
drop_past (suc k) (x ∷ xs) h = drop_past k xs (omega arith)

-- With bounds `a ≤ i < b`.
slice : (a b i : ℕ) → List Bytes → List Bytes
slice a b i [] = []
slice a b i (x ∷ xs) = if leb a i && ltb i b then x ∷ slice a b (suc i) xs else slice a b (suc i) xs

slice_past : (a b i : ℕ) (xs : List Bytes) → b ≤ i → slice a b i xs ≡ []
unfolding slice
slice_past a b i [] h = refl
slice_past a b i (x ∷ xs) h = ground (arith, slice_past a b (suc i) xs)

slice_within :
    (a b i : ℕ) (xs : List Bytes) (k : ℕ) → a ≤ i → k + i ≡ b → slice a b i xs ≡ take k xs
unfolding slice
slice_within a b i [] zero h e = refl
slice_within a b i [] (suc k) h e = refl
slice_within a b i (x ∷ xs) zero h e = slice_past a b i (x ∷ xs) (omega arith)
slice_within a b i (x ∷ xs) (suc k) h e = ground (arith, slice_within a b (suc i) xs k)

slice_before :
    (a b i : ℕ) (xs : List Bytes) (k : ℕ)
    → k + i ≡ a
    → a ≤ b
    → slice a b i xs ≡ take (b - a) (drop k xs)
unfolding slice
slice_before a b i xs zero e h = slice_within a b i xs (b - a) (omega arith) (omega arith)
slice_before a b i [] (suc k) e h = sym (take_none (b - a))
slice_before a b i (x ∷ xs) (suc k) e h = ground (arith, slice_before a b (suc i) xs k)

select-slice :
    (first last : ℤ) (a b size i : ℕ) (xs : List Bytes)
    → ((j : ℕ) → j < size → (leb_ℤ first (pos j) && leb_ℤ (pos j) last) ≡ (leb a j && ltb j b))
    → i + length xs ≤ size
    → select first last i xs ≡ slice a b i xs
unfolding select slice
select-slice first last a b size i [] same h = refl
select-slice first last a b size i (x ∷ xs) same h =
    rw (same i (omega arith), select-slice first last a b size (suc i) xs same (omega arith))

slice_empty : (a b i : ℕ) (xs : List Bytes) → b ≤ a → slice a b i xs ≡ []
unfolding slice
slice_empty a b i [] h = refl
slice_empty a b i (x ∷ xs) h = ground (arith, slice_empty a b (suc i) xs)

slice-take : (a b : ℕ) (xs : List Bytes) → slice a b 0 xs ≡ take (b - a) (drop a xs)
slice-take a b xs = elim (Bool-cases (leb a b)) [
  | inl e ↦ slice_before a b 0 xs a (omega arith) (leb→le a b e)
  | inr e ↦
      let h : b ≤ a = ground arith in
      slice_empty a b 0 xs h ∙ sym (take_zero (b - a) (drop a xs) (omega arith))
]

-- The bounds that the code computes: the first position, and that behind the last.
lower : ℕ → ℤ → ℕ
lower size first = pos_part (position size first)

upper : ℕ → ℤ → ℕ
upper size last =
    let end = position size last in if leb_ℤ (pos size) end then size else pos_part (end +ℤ pos 1)

bounds-same :
    (first last : ℤ) (size j : ℕ)
    → j < size
    → (leb_ℤ (position size first) (pos j) && leb_ℤ (pos j) (position size last))
      ≡ (leb (lower size first) j && ltb j (upper size last))
unfolding lower upper
bounds-same (pos m) (pos n) size j h = ground arith
bounds-same (pos m) (negsuc n) size j h = ground arith
bounds-same (negsuc m) (pos n) size j h = ground arith
bounds-same (negsuc m) (negsuc n) size j h = ground arith

take_nothing : (a b : ℕ) (vec : List Bytes) → b ≤ a → take (b - a) (drop a vec) ≡ []
take_nothing a b vec h = take_zero (b - a) (drop a vec) (omega arith)

take_past : (a k : ℕ) (vec : List Bytes) → length vec ≤ a → take k (drop a vec) ≡ []
take_past a k vec h = rw (drop_past a vec h) (take_none k)

range-take :
    (vec : List Bytes) (first last : ℤ) (size : ℕ)
    → length vec ≡ size
    → range vec (pos size) first last
      ≡ take (upper size last - lower size first) (drop (lower size first) vec)
unfolding lower upper range
range-take vec (pos m) (pos n) size h =
    let a = lower size (pos m) in
    let b = upper size (pos n) in ground (arith, take_nothing a b vec, take_past a (b - a) vec)
range-take vec (pos m) (negsuc n) size h =
    let a = lower size (pos m) in
    let b = upper size (negsuc n) in ground (arith, take_nothing a b vec, take_past a (b - a) vec)
range-take vec (negsuc m) (pos n) size h =
    let a = lower size (negsuc m) in
    let b = upper size (pos n) in ground (arith, take_nothing a b vec, take_past a (b - a) vec)
range-take vec (negsuc m) (negsuc n) size h =
    let a = lower size (negsuc m) in
    let b = upper size (negsuc n) in ground (arith, take_nothing a b vec, take_past a (b - a) vec)

range-select :
    (vec : List Bytes) (first last : ℤ)
    → range vec (pos (length vec)) first last
      ≡ select (position (length vec) first) (position (length vec) last) 0 vec
range-select vec first last =
    let size = length vec in
    range-take vec first last size refl
    ∙ sym (slice-take (lower size first) (upper size last) vec)
    ∙ sym (
        select-slice (position size first) (position size last) (lower size first) (upper size last)
          size 0 vec (bounds-same first last size) (omega arith))

module _ {H : Type 0} where
  -- Of a list whose length fits an `int`, `getListRange` returns the elements from the first position to
  -- the last, both included and in order, where a negative index counts from the end; positions
  -- outside the list select nothing.
  pub get_list_range-select :
      (db : Database H) (key : Bytes) (first last : ℤ)
      → length (list_at db key) ≤ int_max
      → get_list_range db key first last
        ≡ select
            (position (length (list_at db key)) first)
            (position (length (list_at db key)) last)
            0
            (list_at db key)
  unfolding get_list_range select
  get_list_range-select db key first last h =
      ground
        (arith, to_int_pos (length (list_at db key)) h, range-select (list_at db key) first last)
