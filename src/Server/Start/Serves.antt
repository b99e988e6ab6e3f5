-- ===== src/Server/Start/Serves.antt =====
-- Both kinds of server come to serve their clients.
use redis_cpp.Prelude.{◌<◌, length, ◌≢◌, [], ◌≡◌, refl, Bool-cases, inl, inr}
use redis_cpp.Prelude.Int.{ℤ}
use redis_cpp.Prelude.Bytes.{Bytes, codes, bytes_eq, bytes_eq_ne}
use redis_cpp.Prelude.Outcome.{Outcome, ok, throws, undefined, never, Defined, ◌>>=◌}
use redis_cpp.Database
use redis_cpp.Database.{ServerConfig}
use redis_cpp.Client
use redis_cpp.Client.{Network, Socket}
use redis_cpp.Server.Connection.{World, listening}
use redis_cpp.Server.Replica.{connect_to_master}
use redis_cpp.Server.Replica.Handshake.{connect_to_master-Defined, connect_to_master-silent}
use redis_cpp.Server.Start.{
  Binding, ReplicaServer, master, replica, make_server, master_server, replica_server, handshake,
  serving, init_replica, init_server,
}

-- The master is not reached, or it answers each command of the handshake or ends the connection.
abbrev Attends : Outcome Socket → Type 0
Attends (ok socket) = 3 < length socket.reads
Attends (throws e) = Unit
Attends undefined = ⊥
Attends never = ⊥

abbrev pub Attentive : Network → Type 0
Attentive network = (host port : Bytes) → Attends (network host port)

attended : (port : ℤ) (m : Outcome Socket) → Attends m → Defined (m >>= connect_to_master port)
attended port (ok socket) h = connect_to_master-Defined port socket h
attended port (throws e) h = tt
attended port undefined h = absurd h
attended port never h = absurd h

handshake-Defined :
    (network : Network) (server : ReplicaServer)
    → Attentive network
    → Defined (handshake network server)
unfolding handshake Client.connect
handshake-Defined network server h =
    attended server.port (network server.master_host server.master_port)
      (h server.master_host server.master_port)

caught :
    (m : Outcome Socket) (w : World)
    → Defined m
    → (elim m as (λ _. Outcome World) [
      | ok socket ↦ ok w
      | throws e ↦ ok w
      | undefined ↦ undefined
      | never ↦ never
    ])
      ≡ ok w
caught (ok socket) w h = refl
caught (throws e) w h = refl
caught undefined w h = absurd h
caught never w h = absurd h

init_replica-serving :
    (network : Network) (server : ReplicaServer)
    → Attentive network
    → init_replica network server ≡ ok (serving server.db)
unfolding init_replica
init_replica-serving network server h =
    caught (handshake network server) (serving server.db) (handshake-Defined network server h)

-- What a server does that is made: its acceptor is bound first.
made_replica :
    (network : Network) (config : ServerConfig) (bind : Binding) (m : Outcome (Unit {0}))
    → bind config.port ≡ m
    → Attentive network
    → ((replica_server bind config.port config config.master_port config.master_address
          >>= λ server. ok (replica server))
        >>= init_server network)
      ≡ (m >>= λ b. ok (listening config))
unfolding init_server replica_server
made_replica network config bind (ok u) e h = rw e (init_replica-serving network _ h)
made_replica network config bind (throws x) e h = rw e refl
made_replica network config bind undefined e h = rw e refl
made_replica network config bind never e h = rw e refl

made_master :
    (network : Network) (config : ServerConfig) (bind : Binding) (m : Outcome (Unit {0}))
    → bind config.port ≡ m
    → ((master_server bind config.port config >>= λ server. ok (master server))
        >>= init_server network)
      ≡ (m >>= λ b. ok (listening config))
unfolding init_server master_server
made_master network config bind (ok u) e = rw e refl
made_master network config bind (throws x) e = rw e refl
made_master network config bind undefined e = rw e refl
made_master network config bind never e = rw e refl

-- Whatever the configuration, the server comes to its event loop with an empty database of that
-- configuration and its first connection waiting, if its port can be bound, and else throws: whatever
-- becomes of the handshake of a replica, as long as its master cannot be reached, or answers each
-- command or ends the connection.
pub init_server-listening :
    (network : Network) (bind : Binding) (config : ServerConfig)
    → Attentive network
    → (make_server bind config >>= init_server network)
      ≡ (bind config.port >>= λ b. ok (listening config))
unfolding make_server
init_server-listening network bind config h =
    elim (Bool-cases (bytes_eq config.master_address (codes "master"))) [
      | inl t ↦ rw t (made_master network config bind (bind config.port) refl)
      | inr t ↦ rw t (made_replica network config bind (bind config.port) refl h)
    ]

handshake-silent :
    (network : Network) (server : ReplicaServer) (socket : Socket)
    → network server.master_host server.master_port ≡ ok socket
    → socket.reads ≡ []
    → handshake network server ≡ never
unfolding handshake Client.connect
handshake-silent network server socket connected silent =
    rw (connected, connect_to_master-silent server.port socket silent) refl

init_replica-silent :
    (network : Network) (server : ReplicaServer)
    → handshake network server ≡ never
    → init_replica network server ≡ never
unfolding init_replica
init_replica-silent network server h = rw (init_replica, h) refl

-- A replica whose master lets it connect and then stays silent never comes to serve its clients.
pub silent_master :
    (network : Network) (bind : Binding) (config : ServerConfig) (socket : Socket)
    → config.master_address ≢ codes "master"
    → bind config.port ≡ ok tt
    → network config.master_address config.master_port ≡ ok socket
    → socket.reads ≡ []
    → (make_server bind config >>= init_server network) ≡ never
unfolding init_server make_server replica_server
silent_master network bind config socket ne free connected silent =
    let server : ReplicaServer = record {
      db = Database.create config;
      port = config.port;
      master_port = config.master_port;
      master_host = config.master_address;
    } in
    rw (bytes_eq_ne config.master_address (codes "master") ne, free)
      (init_replica-silent network server (handshake-silent network server socket connected silent))
