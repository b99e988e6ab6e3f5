-- ===== src/Resp/Array/Encode.antt =====
-- The buffer that `RespArray::encode` fills.
use mathlib.Core.Path.{fun_ext}
use redis_cpp.Prelude.{
  ℕ, ◌+◌, ◌≡◌, refl, ap, sym, [], ◌∷◌, ◌++◌, List, map, append-nil, append_assoc, length,
  length-append, length-map, arith, All,
}
use redis_cpp.Prelude.Bytes.{Bytes, crlf, Lacks}
use redis_cpp.Prelude.Outcome.{ok, ◌>>=◌}
use redis_cpp.Resp.Decimal.{to_string}
use redis_cpp.Resp.Buffer.{
  Writer, concat, resize, write_all, write_all-resize, resize_next, memcpy_lem, c_string-append,
  write-Written, Written-resize,
}
use redis_cpp.Resp.BulkString
use redis_cpp.Resp.BulkString.{BulkString}
use redis_cpp.Resp.BulkString.Encode
use redis_cpp.Resp.Array.{RespArray, encode, encoded_text, total_size, write_elements, to_resp}

-- No value holds the terminator.
abbrev pub IsText : List BulkString → Type 0
IsText = All (λ el. Lacks 0 el.value)

abbrev values : List BulkString → List Bytes
values = map (λ el. el.value)

encoded_text_lem :
    (el : BulkString) → Lacks 0 el.value → encoded_text el ≡ ok (BulkString.to_resp el.value)
unfolding encoded_text
encoded_text_lem el h =
    rw (Encode.encode-to_resp el)
      (c_string-append (BulkString.to_resp el.value) [] (Encode.to_resp-Lacks el.value h))

total_size_lem :
    (els : List BulkString) (total : ℕ)
    → IsText els
    → total_size els total ≡ ok (total + length (concat (map BulkString.to_resp (values els))))
unfolding total_size
total_size_lem [] total h = ap ok (omega arith)
total_size_lem (el ∷ els) total h =
    let text = BulkString.to_resp el.value in
    let more = concat (map BulkString.to_resp (values els)) in
    rw (encoded_text_lem el h.0, total_size_lem els (total + length text) h.1)
      (ap ok (omega (arith, length-append text more)))

write_elements_lem :
    (els : List BulkString) (w : Writer)
    → IsText els
    → write_elements els w ≡ write_all (map BulkString.to_resp (values els)) w
unfolding write_elements write_all
write_elements_lem [] w h = refl
write_elements_lem (el ∷ els) w h =
    rw (encoded_text_lem el h.0) (ap (◌>>=◌ _) (fun_ext (λ w'. write_elements_lem els w' h.1)))

-- If no element holds a zero byte, every write of `encode` stays inside the buffer, and the buffer
-- then holds the text of `to_resp` with a terminator behind it.
pub encode_array-to_resp :
    (arr : RespArray)
    → IsText arr.elements
    → encode arr ≡ ok (record arr { encoded_buffer = to_resp (values arr.elements) ++ 0 ∷ [] })
unfolding encode to_resp write_all
encode_array-to_resp arr h =
    let els = arr.elements in
    let texts = map BulkString.to_resp (values els) in
    let header = b'*' ∷ (to_string (length els) ++ crlf) in
    let total = length header + length (concat texts) in
    let (w, e, _) =
      write-Written [] header (length (concat texts)) (resize total [], 0)
        (Written-resize total []) in
    let full =
      rw e at
        (write_all-resize (header ∷ texts) total [] (sym (length-append header (concat texts)))) in
    let size : length (header ++ concat texts) ≡ total = length-append header (concat texts) in
    let grown = rw size at (resize_next (header ++ concat texts)) in
    let ended = rw size at (memcpy_lem (header ++ concat texts) (0 ∷ []) (0 ∷ []) (omega arith)) in
    rw (total_size_lem els (length header) h, e, write_elements_lem els w h, full)
      (rw (grown, ended) (simp (append_assoc, append-nil, length-map)))
