-- ===== src/Server/Request/RoundTrip.antt =====
-- Requests in the format of `RespArray::to_resp`, which is that of every client of the protocol.
use redis_cpp.Prelude.{
  ℕ, suc, ◌+◌, ◌-◌, ◌*◌, ◌≤◌, ◌<◌, ◌≡◌, refl, ap, [], ◌∷◌, ◌++◌, List, map, append_assoc, true,
  false, length, length-append, arith, All, le→leb,
}
use redis_cpp.Prelude.Int.{int_max}
use redis_cpp.Prelude.Bytes.{Bytes, cr, nl, crlf}
use redis_cpp.Prelude.Outcome.{ok, undefined, ◌>>=◌, non_digit_array_length}
use redis_cpp.Resp.Decimal.{
  to_string, to_string-pos, to_string-IsDigit, IsDigit, value, parse_digits, parse_digits-to_string,
  parse_digits_overflow,
}
use redis_cpp.Resp.Buffer.{concat}
use redis_cpp.Resp.BulkString
use redis_cpp.Resp.BulkString.{BulkString, bulk_string}
use redis_cpp.Resp.Array
use redis_cpp.Resp.Array.{decode_elements}
use redis_cpp.Resp.Array.RoundTrip as ArrayRoundTrip
use redis_cpp.Resp.Array.RoundTrip.{IsShort}
use redis_cpp.Database.{Database, Floating}
use redis_cpp.Commands.{BlpopHandler, serve_request}
use redis_cpp.Commands.Router.{get_command}
use redis_cpp.Server.Request.{
  num_end, num_loop, get_num_commands, count_loop, header_end, name_and_arguments, parse_command,
  skip_to_cr, after_star, handle_request,
}

-- The two digit loops of the request are that of the decoders.
num_loop-digits :
    (s t : Bytes) (num : ℕ)
    → All IsDigit s
    → num_loop true num (s ++ cr ∷ t)
      ≡ (parse_digits int_max non_digit_array_length s num >>= λ n. num_end true n (cr ∷ t))
unfolding num_loop parse_digits
num_loop-digits [] t num h = refl
num_loop-digits (c ∷ s) t num h = ground (arith, num_loop-digits s t (num * 10 + (c - b'0')) h.1)

num_loop-start :
    (s t : Bytes)
    → All IsDigit s
    → 0 < length s
    → num_loop false 0 (s ++ cr ∷ t)
      ≡ (parse_digits int_max non_digit_array_length s 0 >>= λ n. num_end true n (cr ∷ t))
unfolding num_loop parse_digits
num_loop-start [] t h long = absurd (omega arith)
num_loop-start (c ∷ s) t h long = ground (arith, num_loop-digits s t (0 * 10 + (c - b'0')) h.1)

count_loop-digits :
    (s t : Bytes) (num : ℕ)
    → All IsDigit s
    → count_loop num (s ++ cr ∷ t)
      ≡ (parse_digits int_max non_digit_array_length s num >>= λ n. ok (n, cr ∷ t))
unfolding count_loop parse_digits
count_loop-digits [] t num h = refl
count_loop-digits (c ∷ s) t num h =
    ground (arith, count_loop-digits s t (num * 10 + (c - b'0')) h.1)

skip_to_cr-digits : (s t : Bytes) → All IsDigit s → skip_to_cr (s ++ cr ∷ t) ≡ ok (cr ∷ t)
unfolding skip_to_cr
skip_to_cr-digits [] t h = refl
skip_to_cr-digits (c ∷ s) t h = ground (arith, skip_to_cr-digits s t h.1)

-- The count of elements is read from the header, whatever follows it.
get_num_commands-header :
    (n : ℕ) (rest : Bytes)
    → n ≤ int_max
    → get_num_commands (b'*' ∷ (to_string n ++ (crlf ++ rest))) ≡ ok n
unfolding get_num_commands num_end
get_num_commands-header n rest h =
    rw
      (
        num_loop-start (to_string n) (nl ∷ rest) (to_string-IsDigit n) (to_string-pos n),
        parse_digits-to_string int_max non_digit_array_length n,
        le→leb n int_max h,
      )
      (ground (arith, to_string-pos n, length-append (to_string n) (cr ∷ nl ∷ rest)))

parse_command-header :
    (n : ℕ) (rest : Bytes)
    → suc n ≤ int_max
    → parse_command (b'*' ∷ (to_string (suc n) ++ (crlf ++ rest)))
      ≡ (decode_elements (suc n) rest >>= λ (args, end). name_and_arguments args)
unfolding parse_command header_end
parse_command-header n rest h =
    rw
      (
        count_loop-digits (to_string (suc n)) (nl ∷ rest) 0 (to_string-IsDigit (suc n)),
        parse_digits-to_string int_max non_digit_array_length (suc n),
        le→leb (suc n) int_max h,
      )
      (ground (arith, to_string-pos (suc n), length-append (to_string (suc n)) (cr ∷ nl ∷ rest)))

values-bulk : (items : List Bytes) → map (λ bs. bs.value) (map bulk_string items) ≡ items
values-bulk [] = refl
values-bulk (s ∷ items) = ap (◌∷◌ s) (values-bulk items)

-- The command's name and its arguments, any bytes, are read back from their text.
pub parse_command-to_resp :
    (name : Bytes) (args : List Bytes) (rest : Bytes)
    → length (name ∷ args) ≤ int_max
    → IsShort (name ∷ args)
    → parse_command (Array.to_resp (name ∷ args) ++ rest) ≡ ok (name, args)
unfolding Array.to_resp name_and_arguments
parse_command-to_resp name args rest h short =
    let body = concat (map BulkString.to_resp (name ∷ args)) in
    let n = to_string (length (name ∷ args)) in
    let shape : (n ++ (crlf ++ body)) ++ rest ≡ n ++ (crlf ++ (body ++ rest)) = simp append_assoc in
    rw (
      shape,
      parse_command-header (length args) (body ++ rest) h,
      ArrayRoundTrip.decode_elements-concat (name ∷ args) rest short,
      values-bulk args,
    )

get_num_commands-to_resp :
    (items : List Bytes) (rest : Bytes)
    → length items ≤ int_max
    → get_num_commands (Array.to_resp items ++ rest) ≡ ok (length items)
unfolding Array.to_resp
get_num_commands-to_resp items rest h =
    let body = concat (map BulkString.to_resp items) in
    let n = to_string (length items) in
    let shape : (n ++ (crlf ++ body)) ++ rest ≡ n ++ (crlf ++ (body ++ rest)) = simp append_assoc in
    rw shape (get_num_commands-header (length items) (body ++ rest) h)

after_star-to_resp :
    (items : List Bytes) (rest : Bytes)
    → after_star (Array.to_resp items ++ rest)
      ≡ ok (crlf ++ (concat (map BulkString.to_resp items) ++ rest))
unfolding Array.to_resp after_star
after_star-to_resp items rest =
    let body = concat (map BulkString.to_resp items) in
    let n = to_string (length items) in
    let shape : (n ++ (crlf ++ body)) ++ rest ≡ n ++ (crlf ++ (body ++ rest)) = simp append_assoc in
    rw shape (skip_to_cr-digits n (nl ∷ (body ++ rest)) (to_string-IsDigit (length items)))

get_num_commands_overflow :
    (digits rest : Bytes)
    → All IsDigit digits
    → int_max < value digits 0
    → get_num_commands (b'*' ∷ (digits ++ (crlf ++ rest))) ≡ undefined
unfolding get_num_commands
get_num_commands_overflow [] rest h over = absurd (omega arith)
get_num_commands_overflow (c ∷ s) rest h over =
    rw
      (
        num_loop-start (c ∷ s) (nl ∷ rest) h (omega arith),
        parse_digits_overflow int_max non_digit_array_length (c ∷ s) 0 h (omega arith) over,
      )
      (ground (arith, length-append s (cr ∷ nl ∷ rest)))

module _ (F : Floating) where
  -- A request is its first command: what the text holds is routed and served, and any bytes behind
  -- it that came with the same read are dropped.
  pub handle_request-to_resp :
      (db : Database BlpopHandler) (session : ℕ) (name : Bytes) (args : List Bytes) (rest : Bytes)
      → length (name ∷ args) ≤ int_max
      → IsShort (name ∷ args)
      → handle_request F db session (Array.to_resp (name ∷ args) ++ rest)
        ≡ (get_command F name args >>= serve_request F db session)
  unfolding handle_request
  handle_request-to_resp db session name args rest h short = rw (
    get_num_commands-to_resp (name ∷ args) rest h,
    after_star-to_resp (name ∷ args) rest,
    parse_command-to_resp name args rest h short,
  )

  -- A count of elements that does not fit an `int` overflows: the behaviour of the server is then
  -- undefined, whatever else the request holds.
  pub handle_request_overflow :
      (db : Database BlpopHandler) (session : ℕ) (digits rest : Bytes)
      → All IsDigit digits
      → int_max < value digits 0
      → handle_request F db session (b'*' ∷ (digits ++ (crlf ++ rest))) ≡ undefined
  unfolding handle_request
  handle_request_overflow db session digits rest h over =
      rw (get_num_commands_overflow digits rest h over)
