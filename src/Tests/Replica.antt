-- ===== src/Tests/Replica.antt =====
-- The configuration and the handshake of a replica, at concrete options and answers.
use redis_cpp.Prelude.{arith, ◌≡◌, refl, [], ◌∷◌, map}
use redis_cpp.Prelude.Int.{pos}
use redis_cpp.Prelude.Bytes.{codes, cr}
use redis_cpp.Prelude.Outcome.{ok, throws, never, ◌>>=◌, not_pong}
use redis_cpp.Resp.Buffer.{concat}
use redis_cpp.Resp.Array
use redis_cpp.Database.{ServerConfig}
use redis_cpp.Client.{Network}
use redis_cpp.Client.Send.{line}
use redis_cpp.Server.Connection.{listening}
use redis_cpp.Server.Start.{Binding, make_server, init_server}
use redis_cpp.Server.Start.Serves
use redis_cpp.Server.Replica.{connect_to_master}
use redis_cpp.Server.Replica.Handshake
use redis_cpp.Server.Replica.Handshake.{commands, lacks-Lacks}

abbrev slave : ServerConfig
slave = record { master_address = codes "lo"; port = pos 6380; master_port = codes "80" }

connect_to_master-commands_example :
    connect_to_master (pos 6380) (record {
      written = [];
      reads =
          line (codes "PONG") []
          ∷ line (codes "OK") []
          ∷ line (codes "OK") []
          ∷ line (codes "FULLRESYNC") (codes "$0")
          ∷ [];
    })
    ≡ ok (record { written = concat (map Array.to_resp (commands (pos 6380))); reads = [] })
connect_to_master-commands_example =
    Handshake.connect_to_master-commands (pos 6380) (codes "OK") (codes "OK") (codes "FULLRESYNC")
      [] [] [] (codes "$0") [] (lacks-Lacks cr (codes "OK") refl) (lacks-Lacks cr (codes "OK") refl)
      (lacks-Lacks cr (codes "FULLRESYNC") refl)

connect_to_master-not_pong_example :
    connect_to_master (pos 6380) (record { written = []; reads = line (codes "LOADING") [] ∷ [] })
    ≡ throws not_pong
connect_to_master-not_pong_example =
    Handshake.connect_to_master-not_pong (pos 6380) (codes "LOADING") [] []
      (lacks-Lacks cr (codes "LOADING") refl) (λ e. cc)

-- The master closes the connection at the first read, or does not answer.
abbrev closing : Network
closing host port = ok (record { written = []; reads = [] ∷ [] ∷ [] ∷ [] ∷ [] })

abbrev silent : Network
silent host port = ok (record { written = []; reads = [] })

abbrev free : Binding
free port = ok tt

init_server-listening_example :
    (make_server free slave >>= init_server closing)
    ≡ (free slave.port >>= λ b. ok (listening slave))
init_server-listening_example =
    Serves.init_server-listening closing free slave (λ host port. omega arith)

silent_master_example : (make_server free slave >>= init_server silent) ≡ never
silent_master_example =
    Serves.silent_master silent free slave (record { written = []; reads = [] }) (λ e. cc) refl refl
      refl
