-- ===== src/Server/Replica.antt =====
-- `ReplicaServer::connect_to_master` of src/server/server.cc.
pub mod Handshake
use redis_cpp.Prelude.{[], ◌∷◌, not, if◌then◌else◌}
use redis_cpp.Prelude.Int.{ℤ}
use redis_cpp.Prelude.Bytes.{codes, bytes_eq}
use redis_cpp.Prelude.Outcome.{Outcome, ok, throws, ◌>>=◌, not_pong}
use redis_cpp.Resp.SimpleString.{SimpleString}
use redis_cpp.Resp.Array.{of_args, text}
use redis_cpp.Resp.Integer.{to_string_signed}
use redis_cpp.Client.{Socket, ping, send_array_command}

-- What follows the answer PONG; `port` is the port that the replica listens on.
unfoldable pub after_pong : ℤ → Socket → Outcome Socket
after_pong port socket = do
  (response1, socket1) ←
      send_array_command
        (of_args (
          text (codes "REPLCONF")
          ∷ text (codes "listening-port")
          ∷ text (to_string_signed port)
          ∷ []))
        socket
  (response2, socket2) ←
      send_array_command
        (of_args (text (codes "REPLCONF") ∷ text (codes "capa") ∷ text (codes "psync2") ∷ []))
        socket1
  (response3, socket3) ←
      send_array_command
        (of_args (text (codes "PSYNC") ∷ text (codes "?") ∷ text (codes "-1") ∷ [])) socket2
  ok socket3

unfoldable pub connect_to_master : ℤ → Socket → Outcome Socket
unfolding after_pong
connect_to_master port socket = do
  (response, socket') ← ping socket
  if not (bytes_eq response.value (codes "PONG")) then throws not_pong else after_pong port socket'
