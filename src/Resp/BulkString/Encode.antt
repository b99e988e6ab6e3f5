-- ===== src/Resp/BulkString/Encode.antt =====
-- The buffer that `encode` fills against the text of `to_resp`.
use redis_cpp.Prelude.{
  ◌+◌, ◌≡◌, [], ◌∷◌, ◌++◌, append_assoc, length, length-append, arith, All-append,
}
use redis_cpp.Prelude.Bytes.{Bytes, cr, nl, crlf, Lacks}
use redis_cpp.Prelude.Outcome.{ok}
use redis_cpp.Resp.Decimal.{to_string, to_string-Lacks}
use redis_cpp.Resp.Buffer.{concat, write_all-resize}
use redis_cpp.Resp.BulkString.{BulkString, encode, to_resp}

-- Whatever the buffer held, the five writes of `encode` stay inside the resized buffer, fill it, and
-- leave in it the text of `to_resp` with a terminator behind it.
pub encode-to_resp :
    (bs : BulkString) → encode bs ≡ ok (record bs { encoded_buffer = to_resp bs.value ++ 0 ∷ [] })
unfolding encode to_resp
encode-to_resp bs =
    let header = b'$' ∷ (to_string (length bs.value) ++ crlf) in
    let chunks = header ∷ bs.value ∷ (cr ∷ []) ∷ (nl ∷ []) ∷ (0 ∷ []) ∷ [] in
    let size = length header + length bs.value + 2 + 1 in
    rw
      (write_all-resize chunks size bs.encoded_buffer (
        omega (
          arith,
          length-append header (concat (bs.value ∷ (cr ∷ []) ∷ (nl ∷ []) ∷ (0 ∷ []) ∷ [])),
          length-append bs.value (cr ∷ nl ∷ 0 ∷ []),
        )))
      (simp append_assoc)

-- A value without a zero byte has a text without one.
pub to_resp-Lacks : (v : Bytes) → Lacks 0 v → Lacks 0 (to_resp v)
unfolding to_resp
to_resp-Lacks v h =
    let size = to_string-Lacks 0 (length v) (omega arith) in
    let line : Lacks 0 crlf = ((λ e. absurd (omega arith)), ((λ e. absurd (omega arith)), tt)) in
    (
      (λ e. absurd (omega arith)),
      All-append _ (to_string (length v)) _ size
          (All-append _ crlf _ line (All-append _ v _ h line)),
    )
