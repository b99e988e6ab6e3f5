-- ===== src/Client/Send.antt =====
-- What a client sends and what it makes of the answer.
use redis_cpp.Prelude.{◌≡◌, ◌∙◌, refl, [], ◌∷◌, ◌++◌, List, map, arith, All, All-append, length}
use redis_cpp.Prelude.Bytes.{Bytes, codes, cr, crlf, Lacks}
use redis_cpp.Prelude.Outcome.{ok}
use redis_cpp.Resp.Decimal.{to_string, to_string-Lacks}
use redis_cpp.Resp.Buffer.{concat, c_string-append}
use redis_cpp.Resp.BulkString
use redis_cpp.Resp.BulkString.Encode
use redis_cpp.Resp.SimpleString.{simple_string}
use redis_cpp.Resp.SimpleString.RoundTrip.{decode-line}
use redis_cpp.Resp.Array
use redis_cpp.Resp.Array.{of_strings}
use redis_cpp.Resp.Array.Encode.{encode_array-to_resp, IsText}
use redis_cpp.Client.{Socket, write, read, answer, ping, send_array_command}

-- The line of a simple string, with what was read behind it.
abbrev pub line : Bytes → Bytes → Bytes
line v rest = b'+' ∷ (v ++ (crlf ++ rest))

concat-Lacks :
    (items : List Bytes) → All (Lacks 0) items → Lacks 0 (concat (map BulkString.to_resp items))
concat-Lacks [] h = tt
concat-Lacks (v ∷ items) h =
    All-append _ (BulkString.to_resp v) _ (Encode.to_resp-Lacks v h.0) (concat-Lacks items h.1)

to_resp_array-Lacks : (items : List Bytes) → All (Lacks 0) items → Lacks 0 (Array.to_resp items)
unfolding Array.to_resp
to_resp_array-Lacks items h =
    let newline : Lacks 0 crlf = ((λ e. absurd (omega arith)), ((λ e. absurd (omega arith)), tt)) in
    (
      (λ e. absurd (omega arith)),
      All-append _ (to_string (length items)) _ (to_string-Lacks 0 (length items) (omega arith))
          (All-append _ crlf _ newline (concat-Lacks items h)),
    )

of_strings-IsText : (items : List Bytes) → All (Lacks 0) items → IsText (of_strings items).elements
of_strings-IsText [] h = tt
of_strings-IsText (v ∷ items) h = (h.0, of_strings-IsText items h.1)

values-of_strings : (items : List Bytes) → map (λ el. el.value) (of_strings items).elements ≡ items
values-of_strings [] = refl
values-of_strings (v ∷ items) = cc (values-of_strings items)

answer-line :
    (v rest sent : Bytes) (more : List Bytes)
    → Lacks cr v
    → answer (record { written = sent; reads = line v rest ∷ more })
      ≡ ok (simple_string v, record { written = sent; reads = more })
unfolding answer read
answer-line v rest sent more h = rw (decode-line v rest h) refl

pub send_array_command-answer :
    (items : List Bytes) (socket : Socket)
    → All (Lacks 0) items
    → send_array_command (of_strings items) socket ≡ answer (write (Array.to_resp items) socket)
unfolding send_array_command
send_array_command-answer items socket h =
    rw
      (
        encode_array-to_resp (of_strings items) (of_strings-IsText items h),
        values-of_strings items,
        c_string-append (Array.to_resp items) [] (to_resp_array-Lacks items h),
      )
      refl

-- A command is sent as the text of `to_resp`, without the terminator, and the line that comes back is
-- the result.
pub send_array_command-line :
    (items : List Bytes) (v rest sent : Bytes) (more : List Bytes)
    → All (Lacks 0) items
    → Lacks cr v
    → send_array_command (of_strings items) (record { written = sent; reads = line v rest ∷ more })
      ≡ ok (simple_string v, record { written = sent ++ Array.to_resp items; reads = more })
send_array_command-line items v rest sent more h h' =
    send_array_command-answer items (record { written = sent; reads = line v rest ∷ more }) h
    ∙ answer-line v rest (sent ++ Array.to_resp items) more h'

-- A ping is sent as the command of that name.
pub ping-line :
    (v rest sent : Bytes) (more : List Bytes)
    → Lacks cr v
    → ping (record { written = sent; reads = line v rest ∷ more })
      ≡ ok (
        simple_string v,
        record { written = sent ++ Array.to_resp (codes "PING" ∷ []); reads = more },
      )
unfolding ping Array.to_resp BulkString.to_resp to_string
ping-line v rest sent more h = answer-line v rest (sent ++ Array.to_resp (codes "PING" ∷ [])) more h
