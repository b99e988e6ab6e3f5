-- ===== src/Commands/Store.antt =====
-- What the commands promise, without the database: a value, a list and a queue of waiting clients for
-- every key, and for each command its request, its replies and what becomes of the store.
pub mod Shows
pub mod Waits
pub mod Awaits
pub mod Serves
pub mod Laws
use redis_cpp.Prelude.{
  ◌≡◌, true, ℕ, suc, ◌==◌, ◌++◌, none, some, [], ◌∷◌, List, Option, if◌then◌else◌,
}
use redis_cpp.Prelude.Int.{ℤ, IsLongLong}
use redis_cpp.Prelude.Bytes.{Bytes, codes, bytes_eq}
use redis_cpp.Resp.BulkString
use redis_cpp.Resp.Array
use redis_cpp.Resp.Integer.{to_string_signed}
use redis_cpp.Database.{Floating}
use redis_cpp.Commands.{
  Command, make_ping, make_echo, make_set, make_get, make_info, make_replconf, ok_reply, null_bulk,
  info_master, info_slave, Replies,
}
use redis_cpp.Commands.ListStore
use redis_cpp.Commands.ListStore.{Lists, ListCommand, at_key}

pub record Store : Type 0 where
  pub values : Bytes → Option Bytes
  pub lists : Lists
  -- The clients that wait for the list of a key, the oldest first, each with its ticket.
  pub waiting : Bytes → List (ℕ × ℕ)
  -- The ticket of the next one.
  pub tickets : ℕ
  pub master_address : Bytes

pub data StoreCommand : Type 0 where
  greet : Option Bytes → StoreCommand
  say : Bytes → StoreCommand
  put : Bytes → Bytes → StoreCommand
  put_for : Bytes → Bytes → ℤ → StoreCommand
  find : Bytes → StoreCommand
  on_list : ListCommand → StoreCommand
  role : StoreCommand
  configure : List Bytes → StoreCommand

abbrev pub name : StoreCommand → Bytes
name (greet message) = codes "PING"
name (say message) = codes "ECHO"
name (put key value) = codes "SET"
name (put_for key value time) = codes "SET"
name (find key) = codes "GET"
name (on_list c) = ListStore.name c
name role = codes "INFO"
name (configure args) = codes "REPLCONF"

abbrev pub arguments : StoreCommand → List Bytes
arguments (greet none) = []
arguments (greet (some message)) = message ∷ []
arguments (say message) = message ∷ []
arguments (put key value) = key ∷ value ∷ []
arguments (put_for key value time) = key ∷ value ∷ codes "PX" ∷ to_string_signed time ∷ []
arguments (find key) = key ∷ []
arguments (on_list c) = ListStore.arguments c
arguments role = []
arguments (configure args) = args

-- The command that is meant.
abbrev pub command : {Double : Type 0} → StoreCommand → Command Double
command (greet message) = make_ping message
command (say message) = make_echo message
command (put key value) = make_set key value none
command (put_for key value time) = make_set key value (some (to_string_signed time))
command (find key) = make_get key
command (on_list c) = ListStore.command c
command role = make_info none
command (configure args) = make_replconf

-- A key that has a value keeps it.
kept_or : Option Bytes → Bytes → Option Bytes
kept_or none value = some value
kept_or (some old) value = some old

unfoldable pub with_value : Store → Bytes → Bytes → Store
unfolding kept_or
with_value store key value = record store {
  values = λ j. if bytes_eq key j then kept_or (store.values j) value else store.values j;
}

unfoldable pub without_value : Store → Bytes → Store
without_value store key = record store {
  values = λ j. if bytes_eq key j then none else store.values j;
}

abbrev pub next : Store → StoreCommand → Store
next store (greet message) = store
next store (say message) = store
next store (put key value) = with_value store key value
next store (put_for key value time) = with_value store key value
next store (find key) = store
next store (on_list c) = record store { lists = ListStore.next store.lists c }
next store role = store
next store (configure args) = store

-- The empty value reads as none.
value_text : Option Bytes → Bytes
value_text none = null_bulk
value_text (some []) = null_bulk
value_text (some (c ∷ value)) = BulkString.to_resp (c ∷ value)

unfoldable pub reply : Store → StoreCommand → Bytes
unfolding value_text
reply store (greet none) = codes "+PONG\r\n"
reply store (greet (some message)) = message
reply store (say message) = BulkString.to_resp message
reply store (put key value) = ok_reply
reply store (put_for key value time) = ok_reply
reply store (find key) = value_text (store.values key)
reply store (on_list c) = ListStore.reply store.lists c
reply store role =
    BulkString.to_resp
      (if bytes_eq store.master_address (codes "master") then info_master else info_slave)
reply store (configure args) = ok_reply

-- A time is a `long long` that is on the clock.
abbrev pub Allowed : Floating → Store → StoreCommand → Type 0
Allowed F store (on_list c) = ListStore.Allowed store.lists c
Allowed F store (put_for key value time) = IsLongLong time × (F.on_clock time ≡ true)
Allowed F store c = Unit {0}

-- The first element of a list that is not empty goes to the one who waits longest.
hand_over : Store → Bytes → List (ℕ × ℕ) → List Bytes → Store × Replies
hand_over store key ((ticket, session) ∷ rest) (x ∷ l) =
    let store' = record store {
      lists = at_key store.lists key l;
      waiting = at_key store.waiting key rest;
    } in
    (store', (session, Array.to_resp (key ∷ x ∷ [])) ∷ [])
hand_over store key ((ticket, session) ∷ rest) [] = (store, [])
hand_over store key [] l = (store, [])

unfoldable pub serve_oldest : Store → Option Bytes → Store × Replies
unfolding hand_over
serve_oldest store none = (store, [])
serve_oldest store (some key) = hand_over store key (store.waiting key) (store.lists key)

pushed : StoreCommand → Option Bytes
pushed (on_list c) = ListStore.pushed c
pushed c = none

-- A request: the reply to its client comes before that to one who is served by it.
unfoldable pub perform : Store → ℕ → StoreCommand → Store × Replies
unfolding serve_oldest pushed
perform store session c =
    let (store', more) = serve_oldest (next store c) (pushed c) in
    (store', (session, reply store c) ∷ more)

join : Store → ℕ → Bytes → List Bytes → Store × Replies
join store session key (x ∷ l) =
    let store' = record store { lists = at_key store.lists key l } in
    (store', (session, Array.to_resp (key ∷ x ∷ [])) ∷ [])
join store session key [] =
    let store' = record store {
      waiting = at_key store.waiting key (store.waiting key ++ (store.tickets, session) ∷ []);
      tickets = suc store.tickets;
    } in
    (store', [])

-- BLPOP: the first element if there is one, else a place at the end of the queue.
unfoldable pub await : Store → ℕ → Bytes → Store × Replies
unfolding join
await store session key = join store session key (store.lists key)

-- The client with the ticket, and those that wait without it.
unfoldable pub leave : ℕ → List (ℕ × ℕ) → Option (ℕ × List (ℕ × ℕ))
leave ticket [] = none
leave ticket ((i, session) ∷ rest) =
    if i == ticket then some (session, rest) else elim (leave ticket rest) [
      | none ↦ none
      | some (found, others) ↦ some (found, (i, session) ∷ others)
    ]

-- The time of a ticket is over.
unfoldable pub give_up : Store → Bytes → ℕ → Store × Replies
unfolding leave
give_up store key ticket = elim (leave ticket (store.waiting key)) [
  | none ↦ (store, [])
  | some (session, rest) ↦
      (record store { waiting = at_key store.waiting key rest }, (session, codes "*-1\r\n") ∷ [])
]
