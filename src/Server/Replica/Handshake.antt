-- ===== src/Server/Replica/Handshake.antt =====
-- The handshake of a replica, from its first byte.
use redis_cpp.Prelude.{
  ℕ, suc, length, ◌<◌, Bool, true, Bool-cases, inl, inr, not, ◌==◌, ◌&&◌, ◌≡◌, ◌≢◌, refl, [], ◌∷◌,
  ◌++◌, List, map, All, arith, append_assoc, append-nil,
}
use redis_cpp.Prelude.Int.{ℤ, pos, negsuc}
use redis_cpp.Prelude.Bytes.{Bytes, codes, cr, crlf, Lacks, bytes_eq, bytes_eq_ne}
use redis_cpp.Prelude.Outcome.{ok, throws, never, not_pong, Defined, Defined-bind}
use redis_cpp.Resp.Decimal.{to_string-Lacks}
use redis_cpp.Resp.Buffer.{concat}
use redis_cpp.Resp.Integer.{to_string_signed}
use redis_cpp.Resp.Array
use redis_cpp.Resp.Array.{of_args, of_strings, text}
use redis_cpp.Client.{Socket, ping, answer, read, write, send_array_command}
use redis_cpp.Client.Total.{answer-Defined, answer-reads, sent-Defined, sent-reads}
use redis_cpp.Client.Send.{line, ping-line, send_array_command-line}
use redis_cpp.Server.Replica.{connect_to_master, after_pong}

abbrev listening : ℤ → List Bytes
listening port = codes "REPLCONF" ∷ codes "listening-port" ∷ to_string_signed port ∷ []

abbrev capa : List Bytes
capa = codes "REPLCONF" ∷ codes "capa" ∷ codes "psync2" ∷ []

abbrev psync : List Bytes
psync = codes "PSYNC" ∷ codes "?" ∷ codes "-1" ∷ []

-- The commands of the handshake.
abbrev pub commands : ℤ → List (List Bytes)
commands port = (codes "PING" ∷ []) ∷ listening port ∷ capa ∷ psync ∷ []

port-Lacks : (port : ℤ) → Lacks 0 (to_string_signed port)
unfolding to_string_signed
port-Lacks (pos n) = to_string-Lacks 0 n (omega arith)
port-Lacks (negsuc n) = ((λ e. absurd (omega arith)), to_string-Lacks 0 (suc n) (omega arith))

-- The test of `Lacks`.
abbrev pub lacks : ℕ → Bytes → Bool
lacks b [] = true
lacks b (c ∷ s) = not (c == b) && lacks b s

pub lacks-Lacks : (b : ℕ) (s : Bytes) → lacks b s ≡ true → Lacks b s
lacks-Lacks b [] h = tt
lacks-Lacks b (c ∷ s) h = (ground arith, lacks-Lacks b s (ground arith))

abbrev words_lack : List Bytes → Bool
words_lack [] = true
words_lack (s ∷ words) = lacks 0 s && words_lack words

words-Lacks : (words : List Bytes) → words_lack words ≡ true → All (Lacks 0) words
words-Lacks [] h = tt
words-Lacks (s ∷ words) h = (lacks-Lacks 0 s (ground arith), words-Lacks words (ground arith))

listening-Lacks : (port : ℤ) → All (Lacks 0) (listening port)
listening-Lacks port = (
  lacks-Lacks 0 (codes "REPLCONF") refl,
  (lacks-Lacks 0 (codes "listening-port") refl, (port-Lacks port, tt)),
)

-- If the master answers PONG and three lines more, whatever they say, and each arrives with one read,
-- the handshake ends, and what was sent is the four commands in order, in the format of `to_resp`.
pub connect_to_master-commands :
    (port : ℤ) (v1 v2 v3 rest rest1 rest2 rest3 : Bytes) (more : List Bytes)
    → Lacks cr v1
    → Lacks cr v2
    → Lacks cr v3
    → connect_to_master port (record {
      written = [];
      reads = line (codes "PONG") rest ∷ line v1 rest1 ∷ line v2 rest2 ∷ line v3 rest3 ∷ more;
    })
      ≡ ok (record { written = concat (map Array.to_resp (commands port)); reads = more })
unfolding connect_to_master after_pong of_args bytes_eq
connect_to_master-commands port v1 v2 v3 rest rest1 rest2 rest3 more h1 h2 h3 =
    let sent = Array.to_resp (codes "PING" ∷ []) in
    let sent1 = sent ++ Array.to_resp (listening port) in
    let sent2 = sent1 ++ Array.to_resp capa in
    let third = line v3 rest3 ∷ more in
    let second = line v2 rest2 ∷ third in
    rw
      (
        ping-line (codes "PONG") rest [] (line v1 rest1 ∷ second)
            (lacks-Lacks cr (codes "PONG") refl),
        send_array_command-line (listening port) v1 rest1 sent second (listening-Lacks port) h1,
        send_array_command-line capa v2 rest2 sent1 third (words-Lacks capa refl) h2,
        send_array_command-line psync v3 rest3 sent2 more (words-Lacks psync refl) h3,
      )
      (simp (append_assoc, append-nil))

-- If the first line of the master is another, the handshake ends with an exception.
pub connect_to_master-not_pong :
    (port : ℤ) (v rest : Bytes) (more : List Bytes)
    → Lacks cr v
    → v ≢ codes "PONG"
    → connect_to_master port (record { written = []; reads = line v rest ∷ more }) ≡ throws not_pong
unfolding connect_to_master
connect_to_master-not_pong port v rest more h ne =
    rw (ping-line v rest [] more h, bytes_eq_ne v (codes "PONG") ne) refl

after_pong-Defined :
    (port : ℤ) (socket : Socket) → 2 < length socket.reads → Defined (after_pong port socket)
unfolding after_pong of_args
after_pong-Defined port socket h =
    let fine1 = listening-Lacks port in
    let fine2 = words-Lacks capa refl in
    let fine3 = words-Lacks psync refl in
    Defined-bind (send_array_command (of_strings (listening port)) socket) _
      (sent-Defined (listening port) socket fine1 (omega arith))
      λ r1 e1.
        let left1 = sent-reads (listening port) socket r1 fine1 e1 in
        Defined-bind (send_array_command (of_strings capa) r1.1) _
          (sent-Defined capa r1.1 fine2 (omega arith))
          λ r2 e2.
            let left2 = sent-reads capa r1.1 r2 fine2 e2 in
            Defined-bind (send_array_command (of_strings psync) r2.1) _
              (sent-Defined psync r2.1 fine3 (omega arith)) λ r3 _. tt

-- If the master answers each of the four commands, or ends the connection, whatever it answers, the
-- handshake ends or throws.
pub connect_to_master-Defined :
    (port : ℤ) (socket : Socket) → 3 < length socket.reads → Defined (connect_to_master port socket)
unfolding connect_to_master ping
connect_to_master-Defined port socket h =
    let sent = write (codes "*1" ++ crlf ++ codes "$4" ++ crlf ++ codes "PING" ++ crlf) socket in
    Defined-bind (answer sent) _ (answer-Defined sent (omega arith)) λ r e.
      let left : length socket.reads ≡ suc (length r.1.reads) = answer-reads sent r e in
      elim (Bool-cases (bytes_eq r.0.value (codes "PONG"))) [
        | inl t ↦ rw t (after_pong-Defined port r.1 (omega arith))
        | inr t ↦ rw t tt
      ]

-- If the master does not answer, the handshake never ends.
pub connect_to_master-silent :
    (port : ℤ) (socket : Socket) → socket.reads ≡ [] → connect_to_master port socket ≡ never
unfolding connect_to_master ping answer read
connect_to_master-silent port socket h = rw h refl
