-- ===== src/Client.antt =====
-- The class `Client`: src/client/client.hpp and src/client/client.cc. The server at the other end is
-- given by what the reads of the socket return.
pub mod Send
pub mod Total
use redis_cpp.Prelude.{[], ◌∷◌, ◌++◌, List}
use redis_cpp.Prelude.Bytes.{Bytes, codes, crlf}
use redis_cpp.Prelude.Outcome.{Outcome, ok, throws, never, ◌>>=◌, end_of_file}
use redis_cpp.Resp.Buffer.{c_string}
use redis_cpp.Resp.SimpleString
use redis_cpp.Resp.SimpleString.{SimpleString}
use redis_cpp.Resp.Array
use redis_cpp.Resp.Array.{RespArray}

-- A connected socket: what was written to it, and what its next reads bring, where no bytes stand for
-- the end of the connection. A read behind the last of them is not answered.
pub record Socket : Type 0 where
  pub written : Bytes
  pub reads : List Bytes

-- What asio makes of a host and a port: a connected socket, or an exception.
abbrev pub Network : Type 0
Network = Bytes → Bytes → Outcome Socket

pub record Client : Type 0 where
  pub host : Bytes
  pub port : Bytes

-- `resolve` and `connect`.
unfoldable pub connect : Network → Client → Outcome Socket
connect network client = network client.host client.port

-- `asio::write` of a whole buffer.
abbrev pub write : Bytes → Socket → Socket
write bytes socket = record socket { written = socket.written ++ bytes }

-- `asio::read` of at least one byte: it waits as long as neither a byte nor the end of the connection
-- comes.
unfoldable pub read : Socket → Outcome (Bytes × Socket)
read socket = elim socket.reads [
  | [] ↦ never
  | [] ∷ more ↦ throws end_of_file
  | (byte ∷ bytes) ∷ more ↦ ok (byte ∷ bytes, record socket { reads = more })
]

-- `consumed` is dropped.
unfoldable pub answer : Socket → Outcome (SimpleString × Socket)
unfolding read
answer socket = do
  (buf, socket') ← read socket
  (str, consumed) ← SimpleString.decode buf
  ok (str, socket')

unfoldable pub ping : Socket → Outcome (SimpleString × Socket)
unfolding answer
ping socket =
    answer (write (codes "*1" ++ crlf ++ codes "$4" ++ crlf ++ codes "PING" ++ crlf) socket)

-- `send_array_command` for the answer type `SimpleString`, its only one.
unfoldable pub send_array_command : RespArray → Socket → Outcome (SimpleString × Socket)
unfolding answer
send_array_command command socket = do
  encoded ← Array.encode command
  text ← c_string encoded.encoded_buffer
  answer (write text socket)
