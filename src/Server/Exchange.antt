-- ===== src/Server/Exchange.antt =====
-- Whole exchanges, from the bytes of the requests to those of the replies.
use redis_cpp.Prelude.{ℕ, ◌≤◌, ◌≡◌, refl, ◌∙◌, none, [], ◌∷◌, ◌++◌, length, arith}
use redis_cpp.Prelude.Int.{pos, int_max}
use redis_cpp.Prelude.Bytes.{Bytes, codes, crlf, bytes_eq_refl}
use redis_cpp.Prelude.Outcome.{ok}
use redis_cpp.Resp.Decimal.{to_string}
use redis_cpp.Resp.BulkString
use redis_cpp.Resp.Array
use redis_cpp.Database
use redis_cpp.Database.{Database, Floating}
use redis_cpp.Database.Values.{get_value-set_value}
use redis_cpp.Commands.{BlpopHandler, serve_request, serve_get}
use redis_cpp.Commands.Router.Arguments.{get_command_set, get_command_get}
use redis_cpp.Server.Request.{handle_request}
use redis_cpp.Server.Request.RoundTrip.{handle_request-to_resp}

-- What GET is to answer: the value in the format of a bulk string, its length in front, or the null
-- string for the empty value.
abbrev pub found : Bytes → Bytes
found [] = codes "$-1\r\n"
found (c ∷ value) = b'$' ∷ (to_string (length (c ∷ value)) ++ (crlf ++ (c ∷ (value ++ crlf))))

serve_get-found : (value : Bytes) → serve_get value ≡ found value
unfolding serve_get BulkString.to_resp
serve_get-found [] = refl
serve_get-found (c ∷ value) = refl

module _ (F : Floating) where
  -- A SET of a key without a value, given to `handle_request` with any bytes behind it, is acknowledged
  -- by OK, and a GET of that key is then answered with the value as a bulk string, whatever bytes key
  -- and value hold, or with the null string if the value is empty.
  pub get_after_set :
      (db : Database BlpopHandler) (session session' : ℕ) (key value rest rest' : Bytes)
      → db.kv_store key ≡ none
      → length key ≤ int_max
      → length value ≤ int_max
      → (db' : Database BlpopHandler) × (handle_request F db session
            (Array.to_resp (codes "SET" ∷ key ∷ value ∷ []) ++ rest)
          ≡ ok (db', (session, codes "+OK\r\n") ∷ []))
        × (handle_request F db' session' (Array.to_resp (codes "GET" ∷ key ∷ []) ++ rest')
            ≡ ok (db', (session', found value) ∷ []))
  unfolding serve_request
  get_after_set db session session' key value rest rest' absent short short' =
      let db' = Database.set_value db key value (pos 0) in
      let stored : Database.get_value db' key ≡ value =
        get_value-set_value db key value (pos 0) key ∙ rw (bytes_eq_refl key, absent) refl in
      (
        db',
        rw (
          handle_request-to_resp F db session (codes "SET") (key ∷ value ∷ []) rest (omega arith)
              (omega arith),
          get_command_set F key value,
        ),
        rw (
          handle_request-to_resp F db' session' (codes "GET") (key ∷ []) rest' (omega arith)
              (omega arith),
          get_command_get F key,
          stored,
          serve_get-found value,
        ),
      )
