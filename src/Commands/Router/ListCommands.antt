-- ===== src/Commands/Router/ListCommands.antt =====
-- The requests of list commands are routed to them.
use redis_cpp.Prelude.{◌≡◌, refl, arith}
use redis_cpp.Prelude.Int.{pos}
use redis_cpp.Prelude.Bytes.{bytes_eq, to_upper}
use redis_cpp.Prelude.Outcome.{ok}
use redis_cpp.Database.{Floating}
use redis_cpp.Commands.ListStore.{
  Lists, ListCommand, push, push_front, size, between, pop_first, pop, name, arguments, command,
  Allowed,
}
use redis_cpp.Commands.Router.{get_command, dispatch, to_command, arg}
use redis_cpp.Commands.Stoll.RoundTrip.{stoll-to_string}

pub get_command-command :
    (F : Floating) (lists : Lists) (c : ListCommand)
    → Allowed lists c
    → get_command F (name c) (arguments c) ≡ ok (command c)
unfolding get_command dispatch to_command bytes_eq to_upper arg
get_command-command F lists (push key values) h = refl
get_command-command F lists (push_front key values) h = refl
get_command-command F lists (size key) h = refl
get_command-command F lists (between key first last) h =
    rw (stoll-to_string first (omega arith), stoll-to_string last (omega arith)) refl
get_command-command F lists (pop_first key) h = refl
get_command-command F lists (pop key n) h = rw (stoll-to_string (pos n) (omega arith)) refl
