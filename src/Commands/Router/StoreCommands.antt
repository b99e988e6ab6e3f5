-- ===== src/Commands/Router/StoreCommands.antt =====
-- The requests of the commands are routed to them.
use redis_cpp.Prelude.{◌≡◌, refl, none, some, List, [], ◌∷◌}
use redis_cpp.Prelude.Bytes.{Bytes, codes, bytes_eq, to_upper}
use redis_cpp.Prelude.Outcome.{ok}
use redis_cpp.Database.{Floating}
use redis_cpp.Commands.{make_blpop, make_rpush}
use redis_cpp.Commands.Router.{get_command, dispatch, to_command, arg}
use redis_cpp.Commands.Router.ListCommands
use redis_cpp.Commands.Store.{
  Store, StoreCommand, greet, say, put, put_for, find, on_list, role, configure, name, arguments,
  command, Allowed,
}

pub get_command-meant :
    (F : Floating) (store : Store) (c : StoreCommand)
    → Allowed F store c
    → get_command F (name c) (arguments c) ≡ ok (command c)
unfolding get_command dispatch to_command bytes_eq to_upper arg
get_command-meant F store (greet none) h = refl
get_command-meant F store (greet (some message)) h = refl
get_command-meant F store (say message) h = refl
get_command-meant F store (put key value) h = refl
get_command-meant F store (put_for key value time) h = refl
get_command-meant F store (find key) h = refl
get_command-meant F store (on_list c) h = ListCommands.get_command-command F store.lists c h
get_command-meant F store role h = refl
get_command-meant F store (configure args) h = refl

pub get_command-blpop :
    (F : Floating) (key text : Bytes) (t : F.Double)
    → F.stod text ≡ ok t
    → get_command F (codes "BLPOP") (key ∷ text ∷ []) ≡ ok (make_blpop key t)
unfolding get_command dispatch to_command bytes_eq to_upper arg
get_command-blpop F key text t h = rw h refl

pub get_command-rpush :
    (F : Floating) (key : Bytes) (values : List Bytes)
    → get_command F (codes "RPUSH") (key ∷ values) ≡ ok (make_rpush key values)
unfolding get_command dispatch to_command bytes_eq to_upper
get_command-rpush F key values = refl
