-- ===== src/Server/Config.antt =====
-- The configuration: the tail of `main` in src/main.cc, from the options that argparse returns.
pub mod Words
pub mod Port
use redis_cpp.Prelude.{
  ℕ, suc, [], ◌∷◌, List, Bool, true, false, none, some, leb, not, ◌==◌, ◌&&◌, ◌||◌, get_elem?,
  if◌then◌else◌,
}
use redis_cpp.Prelude.Int.{ℤ, pos_part, neg_part, int_max}
use redis_cpp.Prelude.Bytes.{Bytes, codes, bytes_eq}
use redis_cpp.Prelude.Outcome.{Outcome, ok, throws, undefined, never, out_of_range, ◌>>=◌}
use redis_cpp.Database.{ServerConfig}
use redis_cpp.Commands.Stoll.{stoll}

-- `std::isspace` in the C locale.
abbrev pub is_space : ℕ → Bool
is_space c = (leb 9 c && leb c 13) || c == 32

in_word : Bytes → Bool
in_word [] = false
in_word (c ∷ s) = not (is_space c)

-- Before the words that follow, a byte that is no space: it opens a word of its own, or stands at
-- the head of the next.
put : ℕ → Bool → List Bytes → List Bytes
put c false ws = (c ∷ []) ∷ ws
put c true [] = (c ∷ []) ∷ []
put c true (w ∷ ws) = (c ∷ w) ∷ ws

-- The vector that `istream_iterator` fills.
unfoldable pub words : Bytes → List Bytes
unfolding in_word put
words [] = []
words (c ∷ s) = let rest = words s in if is_space c then rest else put c (in_word s) rest

-- `master[i]`, without a check.
word : List Bytes → ℕ → Outcome Bytes
word master i = elim (get_elem? master i) [ none ↦ undefined | some w ↦ ok w ]

unfoldable pub config_of : Bytes → ℤ → Outcome ServerConfig
unfolding words word
config_of replicaof port =
    if bytes_eq replicaof (codes "master")
    then ok (record { master_address = replicaof; port = port; master_port = codes "-1" })
    else (word (words replicaof) 0 >>= λ address. word (words replicaof) 1 >>= λ master_port.
        ok (record { master_address = address; port = port; master_port = master_port }))

-- `std::stoi`: a `long` that is no `int` is out of range.
unfoldable pub stoi : Bytes → Outcome ℤ
stoi s = stoll s >>= λ z.
    if leb (pos_part z) int_max && leb (neg_part z) (suc int_max) then ok z else throws out_of_range

-- The port: `get_int` is what `program.get<int>("--port")` does, and `text` the string of the option.
unfoldable pub port_val : Outcome ℤ → Bytes → Outcome ℤ
port_val get_int text = elim get_int [
  | ok port ↦ ok port
  | throws e ↦ stoi text
  | undefined ↦ undefined
  | never ↦ never
]
