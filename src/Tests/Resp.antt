-- ===== src/Tests/Resp.antt =====
-- The wire format, at concrete inputs.
use redis_cpp.Prelude.{◌≡◌, refl, [], ◌∷◌, ◌++◌, List, length, arith}
use redis_cpp.Prelude.Int.{negsuc, long_long_max, int_max}
use redis_cpp.Prelude.Bytes.{Bytes, codes}
use redis_cpp.Prelude.Outcome.{ok, throws, undefined, non_numeric_length, content_out_of_bounds}
use redis_cpp.Resp.Decimal
use redis_cpp.Resp.BulkString
use redis_cpp.Resp.BulkString.{BulkString, bulk_string}
use redis_cpp.Resp.BulkString.Encode as BulkEncode
use redis_cpp.Resp.BulkString.RoundTrip as BulkRoundTrip
use redis_cpp.Resp.BulkString.Sound
use redis_cpp.Resp.BulkString.Sound.{IsFrame}
use redis_cpp.Resp.SimpleString
use redis_cpp.Resp.SimpleString.{SimpleString, simple_string}
use redis_cpp.Resp.SimpleString.RoundTrip as SimpleRoundTrip
use redis_cpp.Resp.SimpleString.RoundTrip.{IsLine}
use redis_cpp.Resp.Integer
use redis_cpp.Resp.Integer.{Integer, integer}
use redis_cpp.Resp.Integer.RoundTrip as IntegerRoundTrip
use redis_cpp.Resp.Array
use redis_cpp.Resp.Array.{RespArray, of_strings}
use redis_cpp.Resp.Array.Encode as ArrayEncode
use redis_cpp.Resp.Array.RoundTrip as ArrayRoundTrip

abbrev hello : Bytes
hello = codes "hello"

-- A bulk string whose buffer is in use.
abbrev used : BulkString
used = record { value = hello; encoded_buffer = codes "$1\r\nx\r\n" }

encode-to_resp_example :
    BulkString.encode used
    ≡ ok (record used { encoded_buffer = BulkString.to_resp hello ++ 0 ∷ [] })
encode-to_resp_example = BulkEncode.encode-to_resp used

bulk_text : BulkString.to_resp hello ≡ codes "$5\r\nhello\r\n"
unfolding BulkString.to_resp Decimal.to_string
bulk_text = refl

decode-to_resp_example :
    BulkString.decode (BulkString.to_resp (codes "a\r\nb") ++ codes "$")
    ≡ ok (bulk_string (codes "a\r\nb"), length (BulkString.to_resp (codes "a\r\nb")))
decode-to_resp_example = BulkRoundTrip.decode-to_resp (codes "a\r\nb") (codes "$") (omega arith)

any_terminator : BulkString.decode (codes "$2\r\nokXY") ≡ ok (bulk_string (codes "ok"), 8)
unfolding BulkString.decode Decimal.parse_digits
any_terminator = refl

too_short : BulkString.decode (codes "$9\r\nok\r\n") ≡ throws content_out_of_bounds
unfolding BulkString.decode Decimal.parse_digits
too_short = refl

decode_sound_example : IsFrame (codes "$2\r\nokXY") (bulk_string (codes "ok")) 8
decode_sound_example = Sound.decode_sound (codes "$2\r\nokXY") _ 8 any_terminator

abbrev greeting : SimpleString
greeting = record { value = codes "PONG"; encoded_buffer = [] }

pong : SimpleString.decode (codes "+PONG\r\n") ≡ ok (simple_string (codes "PONG"), 7)
unfolding SimpleString.decode
pong = refl

decode-IsLine_sound_example : IsLine (codes "+PONG\r\n") (simple_string (codes "PONG")) 7
decode-IsLine_sound_example = SimpleRoundTrip.decode-IsLine_sound (codes "+PONG\r\n") _ 7 pong

decode-integer-to_resp_example :
    Integer.decode (Integer.to_resp (negsuc 41) ++ codes ":")
    ≡ ok (integer (negsuc 41), length (Integer.to_resp (negsuc 41)))
decode-integer-to_resp_example =
    IntegerRoundTrip.decode-integer-to_resp (negsuc 41) (codes ":") (omega arith)
      (λ e. ground arith)

decode_min_example :
    Integer.decode (Integer.to_resp (negsuc long_long_max) ++ codes ":1") ≡ undefined
decode_min_example = IntegerRoundTrip.decode_min (codes ":1")

abbrev request : List Bytes
request = codes "ECHO" ∷ hello ∷ []

encode_array-to_resp_example :
    Array.encode (of_strings request)
    ≡ ok (record (of_strings request) { encoded_buffer = Array.to_resp request ++ 0 ∷ [] })
encode_array-to_resp_example = ArrayEncode.encode_array-to_resp (of_strings request) (omega arith)

decode_array-to_resp_example :
    Array.decode (Array.to_resp request ++ codes "*1")
    ≡ ok (of_strings request, length (Array.to_resp request))
decode_array-to_resp_example =
    ArrayRoundTrip.decode_array-to_resp request (codes "*1") (omega arith) (omega arith)

parse_digits-to_string_example :
    Decimal.parse_digits int_max non_numeric_length (Decimal.to_string 2147483648) 0 ≡ undefined
parse_digits-to_string_example =
    Decimal.parse_digits-to_string int_max non_numeric_length 2147483648
