-- ===== src/Client/Total.antt =====
-- Where the server at the other end sends bytes or ends the connection, a client's calls return or
-- throw.
use redis_cpp.Prelude.{suc, ◌<◌, ◌≡◌, refl, sym, ◌∙◌, List, [], ◌∷◌, All, length, arith}
use redis_cpp.Prelude.Bytes.{Bytes, Lacks}
use redis_cpp.Prelude.Outcome.{Outcome, ok, Defined, Defined-bind, ◌>>=◌, >>=-ok}
use redis_cpp.Resp.SimpleString
use redis_cpp.Resp.SimpleString.{SimpleString}
use redis_cpp.Resp.SimpleString.RoundTrip.{decode-Defined}
use redis_cpp.Resp.Array
use redis_cpp.Resp.Array.{of_strings}
use redis_cpp.Client.{Socket, read, answer, send_array_command, write}
use redis_cpp.Client.Send.{send_array_command-answer}

read-Defined :
    (socket : Socket) (reads : List Bytes)
    → socket.reads ≡ reads
    → 0 < length reads
    → Defined (read socket)
unfolding read
read-Defined socket [] e h = absurd (omega arith)
read-Defined socket ([] ∷ more) e h = rw e tt
read-Defined socket ((byte ∷ bytes) ∷ more) e h = rw e tt

read-reads :
    (socket socket' : Socket) (bytes : Bytes) (reads : List Bytes)
    → socket.reads ≡ reads
    → read socket ≡ ok (bytes, socket')
    → length reads ≡ suc (length socket'.reads)
unfolding read
read-reads socket socket' bytes [] e h = absurd (ground arith)
read-reads socket socket' bytes ([] ∷ more) e h = absurd (ground arith)
read-reads socket socket' bytes ((b ∷ bs) ∷ more) e h = ground arith

-- An answer takes one of the reads.
pub answer-Defined : (socket : Socket) → 0 < length socket.reads → Defined (answer socket)
unfolding answer
answer-Defined socket h =
    Defined-bind (read socket) _ (read-Defined socket socket.reads refl h)
      λ r e. Defined-bind (SimpleString.decode r.0) _ (decode-Defined r.0) λ r' e'. tt

pub answer-reads :
    (socket : Socket) (r : SimpleString × Socket)
    → answer socket ≡ ok r
    → length socket.reads ≡ suc (length r.1.reads)
unfolding answer
answer-reads socket r h =
    let (got, e, rest) = >>=-ok (read socket) decoded h in
    let (text, e', returned) =
      >>=-ok (SimpleString.decode got.0) (λ (str, consumed). ok (str, got.1)) rest in
    let same : got.1 ≡ r.1 = cc in rw (← same) (read-reads socket got.1 got.0 socket.reads refl e)
  where
    decoded : Bytes × Socket → Outcome (SimpleString × Socket)
    decoded (buf, socket') = SimpleString.decode buf >>= λ (str, consumed). ok (str, socket')

pub sent-Defined :
    (items : List Bytes) (socket : Socket)
    → All (Lacks 0) items
    → 0 < length socket.reads
    → Defined (send_array_command (of_strings items) socket)
sent-Defined items socket h wait =
    rw (send_array_command-answer items socket h)
      (answer-Defined (write (Array.to_resp items) socket) wait)

pub sent-reads :
    (items : List Bytes) (socket : Socket) (r : SimpleString × Socket)
    → All (Lacks 0) items
    → send_array_command (of_strings items) socket ≡ ok r
    → length socket.reads ≡ suc (length r.1.reads)
sent-reads items socket r h sent =
    answer-reads (write (Array.to_resp items) socket) r
      (sym (send_array_command-answer items socket h) ∙ sent)
