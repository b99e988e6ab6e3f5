-- ===== src/Resp/Array/Size.antt =====
-- How long the text of an array is.
use redis_cpp.Prelude.{ℕ, suc, ◌≤◌, List, [], ◌∷◌, ◌++◌, map, length, length-append, All, arith}
use redis_cpp.Prelude.Bytes.{Bytes, crlf}
use redis_cpp.Resp.Buffer.{concat}
use redis_cpp.Resp.Decimal.{to_string}
use redis_cpp.Resp.BulkString
use redis_cpp.Resp.Array

length-bulk : (s : Bytes) → suc (length s) ≤ length (BulkString.to_resp s)
unfolding BulkString.to_resp
length-bulk s =
    omega (arith, length-append (to_string (length s)) (crlf ++ (s ++ crlf)), length-append s crlf)

length-concat : (items : List Bytes) → length items ≤ length (concat (map BulkString.to_resp items))
length-concat [] = omega arith
length-concat (s ∷ items) = omega (
  arith,
  length-bulk s,
  length-concat items,
  length-append (BulkString.to_resp s) (concat (map BulkString.to_resp items)),
)

items-concat :
    (n : ℕ) (items : List Bytes)
    → length (concat (map BulkString.to_resp items)) ≤ n
    → All (λ s. length s ≤ n) items
items-concat n [] h = tt
items-concat n (s ∷ items) h =
    let all = length-append (BulkString.to_resp s) (concat (map BulkString.to_resp items)) in
    (omega (arith, length-bulk s, all), items-concat n items (omega (arith, all)))

concat-to_resp :
    (items : List Bytes)
    → length (concat (map BulkString.to_resp items)) ≤ length (Array.to_resp items)
unfolding Array.to_resp
concat-to_resp items = omega (
  arith,
  length-append (to_string (length items)) (crlf ++ concat (map BulkString.to_resp items)),
)

-- The items of a text are no more, and none is longer, than its bytes.
pub few_items : (n : ℕ) (items : List Bytes) → length (Array.to_resp items) ≤ n → length items ≤ n
few_items n items h = omega (arith, length-concat items, concat-to_resp items)

pub short_items :
    (n m : ℕ) (items : List Bytes)
    → length (Array.to_resp items) ≤ n
    → n ≤ m
    → All (λ s. length s ≤ m) items
short_items n m items h le = items-concat m items (omega (arith, concat-to_resp items))
