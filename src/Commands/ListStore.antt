-- ===== src/Commands/ListStore.antt =====
-- What the list commands promise, without the database: a list for every key, and for each command its
-- request, its reply and what becomes of the lists.
pub mod Serves
use redis_cpp.Prelude.{
  ℕ, ◌≤◌, Option, none, some, [], ◌∷◌, ◌++◌, List, length, reverse, take, drop, if◌then◌else◌,
}
use redis_cpp.Prelude.Int.{ℤ, pos, int_max, IsInt}
use redis_cpp.Prelude.Bytes.{Bytes, codes, bytes_eq}
use redis_cpp.Resp.BulkString
use redis_cpp.Resp.Integer
use redis_cpp.Resp.Integer.{to_string_signed}
use redis_cpp.Resp.Array
use redis_cpp.Commands.{Command, make_rpush, make_lpush, make_llen, make_lrange, make_lpop}
use redis_cpp.Database.Range.{select, position}

abbrev pub Lists : Type 0
Lists = Bytes → List Bytes

pub data ListCommand : Type 0 where
  push : Bytes → List Bytes → ListCommand
  push_front : Bytes → List Bytes → ListCommand
  size : Bytes → ListCommand
  between : Bytes → ℤ → ℤ → ListCommand
  pop_first : Bytes → ListCommand
  pop : Bytes → ℕ → ListCommand

abbrev pub name : ListCommand → Bytes
name (push key values) = codes "RPUSH"
name (push_front key values) = codes "LPUSH"
name (size key) = codes "LLEN"
name (between key first last) = codes "LRANGE"
name (pop_first key) = codes "LPOP"
name (pop key n) = codes "LPOP"

abbrev pub arguments : ListCommand → List Bytes
arguments (push key values) = key ∷ values
arguments (push_front key values) = key ∷ values
arguments (size key) = key ∷ []
arguments (between key first last) = key ∷ to_string_signed first ∷ to_string_signed last ∷ []
arguments (pop_first key) = key ∷ []
arguments (pop key n) = key ∷ to_string_signed (pos n) ∷ []

-- The command that is meant.
abbrev pub command : {Double : Type 0} → ListCommand → Command Double
command (push key values) = make_rpush key values
command (push_front key values) = make_lpush key values
command (size key) = make_llen key
command (between key first last) = make_lrange key first last
command (pop_first key) = make_lpop key none
command (pop key n) = make_lpop key (some (pos n))

abbrev pub at_key : {A : Type 0} → (Bytes → A) → Bytes → A → Bytes → A
at_key f key x j = if bytes_eq key j then x else f j

abbrev pub next : Lists → ListCommand → Lists
next lists (push key values) = at_key lists key (lists key ++ values)
-- The whole list is reversed.
next lists (push_front key values) = at_key lists key (reverse (lists key ++ values))
next lists (size key) = lists
next lists (between key first last) = lists
next lists (pop_first key) = at_key lists key (drop 1 (lists key))
next lists (pop key n) = at_key lists key (drop n (lists key))

first_text : List Bytes → Bytes
first_text [] = []
first_text (x ∷ xs) = BulkString.to_resp x

unfoldable pub reply : Lists → ListCommand → Bytes
unfolding first_text
reply lists (push key values) = Integer.to_resp (pos (length (lists key ++ values)))
reply lists (push_front key values) = Integer.to_resp (pos (length (lists key ++ values)))
reply lists (size key) = Integer.to_resp (pos (length (lists key)))
reply lists (between key first last) =
    let n = length (lists key) in
    Array.to_resp (select (position n first) (position n last) 0 (lists key))
reply lists (pop_first key) = first_text (lists key)
reply lists (pop key n) = Array.to_resp (take n (lists key))

-- The key on which values are pushed: one who waits for it is served.
abbrev pub pushed : ListCommand → Option Bytes
pushed (push key values) = some key
pushed (push_front key values) = some key
pushed (size key) = none
pushed (between key first last) = none
pushed (pop_first key) = none
pushed (pop key n) = none

-- Lengths and positions fit an `int`, there is what is popped, and no list is pushed that is empty
-- then.
abbrev pub Allowed : Lists → ListCommand → Type 0
Allowed lists (push key values) =
    (1 ≤ length (lists key ++ values)) × (length (lists key ++ values) ≤ int_max)
Allowed lists (push_front key values) =
    (1 ≤ length (lists key ++ values)) × (length (lists key ++ values) ≤ int_max)
Allowed lists (size key) = length (lists key) ≤ int_max
Allowed lists (between key first last) = (length (lists key) ≤ int_max) × IsInt first × IsInt last
Allowed lists (pop_first key) = 1 ≤ length (lists key)
Allowed lists (pop key n) = (2 ≤ n) × (n ≤ length (lists key)) × (n ≤ int_max)
