-- ===== src/Server/Start.antt =====
-- The two kinds of server, and how a server starts: src/server/server.hpp, and `make_server` and the
-- `init_server` of both kinds in src/server/server.cc. `ctx_` and `acceptor_` are asio's; a `Server` is
-- held by the one who runs it.
pub mod Serves
use redis_cpp.Prelude.{if◌then◌else◌}
use redis_cpp.Prelude.Int.{ℤ}
use redis_cpp.Prelude.Bytes.{Bytes, codes, bytes_eq}
use redis_cpp.Prelude.Outcome.{Outcome, ok, throws, undefined, never, ◌>>=◌}
use redis_cpp.Database
use redis_cpp.Database.{Database, ServerConfig}
use redis_cpp.Commands.{BlpopHandler}
use redis_cpp.Client
use redis_cpp.Client.{Client, Network, Socket}
use redis_cpp.Server.Config.{config_of, port_val}
use redis_cpp.Server.Connection.{World, new_connection}
use redis_cpp.Server.Replica.{connect_to_master}

pub record MasterServer : Type 0 where
  pub db : Database BlpopHandler
  pub port : ℤ

-- What asio does when an acceptor is made for a port: it returns, or throws.
abbrev pub Binding : Type 0
Binding = ℤ → Outcome (Unit {0})

-- The constructor, with that of its acceptor.
unfoldable pub master_server : Binding → ℤ → ServerConfig → Outcome MasterServer
master_server bind port config =
    bind port >>= λ bound. ok (record { db = Database.create config; port = port })

pub record ReplicaServer : Type 0 where
  pub db : Database BlpopHandler
  pub port : ℤ
  pub master_port : Bytes
  pub master_host : Bytes

-- The constructor, with that of its acceptor.
unfoldable pub replica_server : Binding → ℤ → ServerConfig → Bytes → Bytes → Outcome ReplicaServer
replica_server bind port config master_port master_host = bind port >>= λ bound. ok (record {
  db = Database.create config;
  port = port;
  master_port = master_port;
  master_host = master_host;
})

pub data Server : Type 0 where
  master : MasterServer → Server
  replica : ReplicaServer → Server

unfoldable pub get_db : Server → Database BlpopHandler
get_db (master server) = server.db
get_db (replica server) = server.db

unfoldable pub make_server : Binding → ServerConfig → Outcome Server
unfolding master_server replica_server
make_server bind config =
    if bytes_eq config.master_address (codes "master")
    then (master_server bind config.port config >>= λ server. ok (master server))
    else (replica_server bind config.port config config.master_port config.master_address
        >>= λ server. ok (replica server))

-- `connect_to_master` from its start.
unfoldable pub handshake : Network → ReplicaServer → Outcome Socket
handshake network server =
    let c : Client = record { host = server.master_host; port = server.master_port } in
    Client.connect network c >>= connect_to_master server.port

-- What is there when the event loop begins: the first connection waits to be accepted.
abbrev pub serving : Database BlpopHandler → World
serving db = record { db = db; connections = λ s. new_connection; accepting = 0 }

-- `try { connect_to_master(); } catch (std::exception &e)`, and what follows.
unfoldable pub init_replica : Network → ReplicaServer → Outcome World
unfolding handshake
init_replica network server = elim (handshake network server) [
  | ok socket ↦ ok (serving server.db)
  | throws e ↦ ok (serving server.db)
  | undefined ↦ undefined
  | never ↦ never
]

unfoldable pub init_server : Network → Server → Outcome World
unfolding init_replica
init_server network (master server) = ok (serving server.db)
init_server network (replica server) = init_replica network server

-- The tail of `main` behind the reading of the port, up to the event loop.
unfoldable pub run_server : Binding → Network → Bytes → ℤ → Outcome World
run_server bind network replicaof port =
    config_of replicaof port >>= λ config. make_server bind config >>= init_server network

-- `main` behind `parse_args`: what `get<int>` does with the port, the text of the port, and that of
-- `--replicaof`.
unfoldable pub run_main : Binding → Network → Outcome ℤ → Bytes → Bytes → Outcome World
run_main bind network get_int text replicaof =
    port_val get_int text >>= λ port. run_server bind network replicaof port
