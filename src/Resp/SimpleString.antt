-- ===== src/Resp/SimpleString.antt =====
-- The class `SimpleString`: src/resp/simplestring.hpp and src/resp/simplestring.cc.
pub mod RoundTrip
use redis_cpp.Prelude.{
  ℕ, ◌+◌, [], ◌∷◌, ◌++◌, none, some, length, drop, ltb, not, ◌||◌, ◌==◌, if◌then◌else◌,
}
use redis_cpp.Prelude.Bytes.{Bytes, cr, nl, memchr}
use redis_cpp.Prelude.Outcome.{Outcome, ok, throws, ◌>>=◌, missing_plus, missing_crlf}
use redis_cpp.Resp.Buffer.{Writer, resize, write_all}

pub record SimpleString : Type 0 where
  pub value : Bytes
  pub encoded_buffer : Bytes

-- The constructor.
abbrev pub simple_string : Bytes → SimpleString
simple_string value = record { value = value; encoded_buffer = [] }

unfoldable pub encode : SimpleString → Outcome SimpleString
encode str = do
  let total_size = 1 + length str.value + 2
  let start : Writer = (resize (total_size + 1) str.encoded_buffer, 0)
  w ← write_all ((b'+' ∷ []) ∷ str.value ∷ (cr ∷ []) ∷ (nl ∷ []) ∷ (0 ∷ []) ∷ []) start
  ok (record str { encoded_buffer = w.0 })

-- `line` is the bytes before the carriage return, the plus sign included.
line_end : Bytes → Bytes → Outcome (SimpleString × ℕ)
line_end line [] = throws missing_crlf
line_end line (c ∷ after) =
    if c == nl then ok (simple_string (drop 1 line), length line + 2) else throws missing_crlf

unfoldable pub decode : Bytes → Outcome (SimpleString × ℕ)
unfolding line_end memchr
decode [] = throws missing_plus
decode (c ∷ s) =
    if ltb (length (c ∷ s)) 3 || not (c == b'+')
    then throws missing_plus
    else elim (memchr cr (c ∷ s)) [
      | none ↦ throws missing_crlf
      | some (line, after) ↦ line_end line after
    ]
