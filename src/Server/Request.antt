-- ===== src/Server/Request.antt =====
-- One request: `get_num_commands`, and `parse_command` and `handle_request` of `tcp_connection`.
-- A request is what one read returned, at most 1024 bytes.
pub mod RoundTrip
use redis_cpp.Prelude.{
  ℕ, zero, suc, ◌+◌, ◌-◌, ◌*◌, [], ◌∷◌, List, map, Bool, true, false, not, ◌||◌, ◌==◌, leb, ltb,
  length, if◌then◌else◌,
}
use redis_cpp.Prelude.Int.{int_max}
use redis_cpp.Prelude.Bytes.{Bytes, cr, nl, is_digit}
use redis_cpp.Prelude.Outcome.{
  Outcome, ok, throws, undefined, ◌>>=◌, missing_star, non_digit_array_length, missing_array_length,
  invalid_header_crlf, invalid_array, invalid_array_header, empty_array,
}
use redis_cpp.Resp.BulkString.{BulkString}
use redis_cpp.Resp.Array.{decode_elements}
use redis_cpp.Database.{Database, Floating}
use redis_cpp.Commands.{Command, BlpopHandler, Result, serve_request}
use redis_cpp.Commands.Router.{get_command}

-- `data_` has this size.
abbrev pub max_read : ℕ
max_read = 1024

-- The end of `get_num_commands`, at the carriage return or the end of the text.
num_end : Bool → ℕ → Bytes → Outcome ℕ
num_end false num s = throws missing_array_length
num_end true num (c ∷ d ∷ s) =
    if not (c == cr) || not (d == nl) then throws invalid_header_crlf else ok num
num_end true num _ = throws invalid_header_crlf

-- Its loop; `has_digits` says that a digit was read.
num_loop : Bool → ℕ → Bytes → Outcome ℕ
unfolding num_end
num_loop has_digits num [] = num_end has_digits num []
num_loop has_digits num (c ∷ s) =
    let next = num * 10 + (c - b'0') in
    let more = num_loop true next s in
    if c == cr
    then num_end has_digits num (c ∷ s)
    else if not (is_digit c)
    then throws non_digit_array_length
    else if leb next int_max
    then more
    else undefined

unfoldable pub get_num_commands : Bytes → Outcome ℕ
unfolding num_loop
get_num_commands [] = throws missing_star
get_num_commands (c ∷ s) =
    if ltb (length (c ∷ s)) 4 || not (c == b'*') then throws missing_star else num_loop false 0 s

-- The digit loop of `parse_command`: the number and the cursor behind its digits.
count_loop : ℕ → Bytes → Outcome (ℕ × Bytes)
count_loop num [] = ok (num, [])
count_loop num (c ∷ s) =
    let next = num * 10 + (c - b'0') in
    let more = count_loop next s in
    if is_digit c then if leb next int_max then more else undefined else ok (num, c ∷ s)

-- The line end, and the check that there are elements.
header_end : ℕ × Bytes → Outcome (ℕ × Bytes)
header_end (num, c ∷ d ∷ s) =
    if not (c == cr) || not (d == nl)
    then throws invalid_array_header
    else if num == 0
    then throws empty_array
    else ok (num, s)
header_end (num, _) = throws invalid_array_header

-- `args[0]`, and the arguments behind it. The loop that reads the elements is that of
-- `RespArray::decode`, and reads at least one.
name_and_arguments : List BulkString → Outcome (Bytes × List Bytes)
name_and_arguments [] = undefined
name_and_arguments (bs ∷ args) = ok (bs.value, map (λ a. a.value) args)

-- `parse_command` up to the call of the router.
unfoldable pub parse_command : Bytes → Outcome (Bytes × List Bytes)
unfolding count_loop header_end name_and_arguments
parse_command [] = throws invalid_array
parse_command (c ∷ s) =
    if ltb (length (c ∷ s)) 4 || not (c == b'*')
    then throws invalid_array
    else (count_loop 0 s >>= header_end >>= λ (num, cursor).
        decode_elements num cursor >>= λ (args, end). name_and_arguments args)

-- `while (*cursor != '\r') cursor++;` on a text that ends in a zero byte, which the loop passes.
skip_to_cr : Bytes → Outcome Bytes
skip_to_cr [] = undefined
skip_to_cr (c ∷ s) = if c == cr then ok (c ∷ s) else skip_to_cr s

-- `req.c_str() + 1`.
pub after_star : Bytes → Outcome Bytes
unfolding skip_to_cr
after_star [] = undefined
after_star (c ∷ s) = skip_to_cr s

module _ (F : Floating) where
  open F use {Double}

  -- `handle_request` of the connection `session`.
  unfoldable pub handle_request : Database BlpopHandler → ℕ → Bytes → Result
  unfolding after_star
  handle_request db session req = do
    n_commands ← get_num_commands req
    cursor ← after_star req
    (command_name, arguments) ← parse_command req
    cmd ← get_command F command_name arguments
    serve_request F db session cmd
