-- ===== src/Database/Vectors.antt =====
-- The loops and index computations of src/database.cc on one `std::vector<std::string>`.
use redis_cpp.Prelude.{
  ℕ, zero, suc, ◌+◌, ◌-◌, [], ◌∷◌, List, none, some, take, drop, get_elem?, ◌||◌, if◌then◌else◌,
}
use redis_cpp.Prelude.Int.{ℤ, pos, negsuc, ◌+ℤ◌, ltb_ℤ, leb_ℤ, pos_part}
use redis_cpp.Prelude.Bytes.{Bytes}
use redis_cpp.Prelude.Outcome.{Outcome, ok, throws, undefined, ◌>>=◌, out_of_range}

-- `vec.back()`, undefined on the empty vector.
unfoldable pub back : List Bytes → Outcome Bytes
back [] = undefined
back (x ∷ []) = ok x
back (x ∷ y ∷ vec) = back (y ∷ vec)

-- `vec.at(idx)`: a negative index is converted to a size beyond the end.
unfoldable pub at : List Bytes → ℤ → Outcome Bytes
at vec (pos n) = elim (get_elem? vec n) [ none ↦ throws out_of_range | some v ↦ ok v ]
at vec (negsuc zero) = back vec
at vec (negsuc (suc n)) = throws out_of_range

-- `front` and `erase(begin)`, undefined on the empty vector.
unfoldable pub pop_front {ℓ} : {A : Type ℓ} → List A → Outcome (A × List A)
pop_front [] = undefined
pop_front (x ∷ vec) = ok (x, vec)

-- The loop of `removeListValue`, with `idx` rounds: the values and what is left.
unfoldable pub pop_fronts : ℕ → List Bytes → Outcome (List Bytes × List Bytes)
unfolding pop_front
pop_fronts zero vec = ok ([], vec)
pop_fronts (suc idx) vec = pop_front vec >>= λ (val, rest).
    pop_fronts idx rest >>= λ (values, left). ok (val ∷ values, left)

-- `getListRange` on the vector. The first `int` is `size`.
unfoldable pub range : List Bytes → ℤ → ℤ → ℤ → List Bytes
range vec size first last =
    let begin = if ltb_ℤ first (pos 0) then size +ℤ first else first in
    let end = if ltb_ℤ last (pos 0) then size +ℤ last else last in
    let begin' = if ltb_ℤ begin (pos 0) then pos 0 else begin in
    let end' = if leb_ℤ size end then size +ℤ negsuc 0 else end in
    if ltb_ℤ end' begin' || leb_ℤ size begin'
    then []
    else take (pos_part end' + 1 - pos_part begin') (drop (pos_part begin') vec)
