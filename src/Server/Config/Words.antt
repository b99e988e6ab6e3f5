-- ===== src/Server/Config/Words.antt =====
-- Which words the option `--replicaof` has.
use redis_cpp.Prelude.{◌≡◌, ◌≢◌, refl, sym, ap, ◌∙◌, [], ◌∷◌, ◌++◌, All, false, arith}
use redis_cpp.Prelude.Int.{ℤ}
use redis_cpp.Prelude.Bytes.{Bytes, codes, bytes_eq_ne}
use redis_cpp.Prelude.Outcome.{ok, undefined}
use redis_cpp.Server.Config.{is_space, in_word, put, words, word, config_of}

-- A byte and those behind it, without a space.
abbrev pub Word : Bytes → Type 0
Word [] = ⊥
Word (c ∷ s) = All (λ d. is_space d ≡ false) (c ∷ s)

words_one : (w : Bytes) → Word w → words w ≡ w ∷ []
unfolding words in_word put
words_one [] h = absurd h
words_one (c ∷ []) h = ground (arith, h.0)
words_one (c ∷ d ∷ s) h = ground (arith, h.0, h.1.0, words_one (d ∷ s) h.1)

words-append : (w t : Bytes) → Word w → words (w ++ 32 ∷ t) ≡ w ∷ words t
unfolding words in_word put
words-append [] t h = absurd h
words-append (c ∷ []) t h = ground (arith, h.0)
words-append (c ∷ d ∷ s) t h = ground (arith, h.0, h.1.0, words-append (d ∷ s) t h.1)

two_words : (v w : Bytes) → Word v → Word w → v ++ 32 ∷ w ≢ codes "master"
unfolding words in_word put
two_words v w h h' e =
    let split : words (v ++ 32 ∷ w) ≡ v ∷ w ∷ [] = rw (words-append v w h, words_one w h') refl in
    let one : v ∷ w ∷ [] ≡ codes "master" ∷ [] = sym split ∙ ap words e in cc

-- Of a host and a port with a space between them, the one becomes the master's address, and the
-- other its port.
pub config_of_two :
    (host master_port : Bytes) (port : ℤ)
    → Word host
    → Word master_port
    → config_of (host ++ 32 ∷ master_port) port
      ≡ ok (record { master_address = host; port = port; master_port = master_port })
unfolding config_of word
config_of_two host master_port port h h' =
    rw
      (
        bytes_eq_ne (host ++ 32 ∷ master_port) (codes "master") (two_words host master_port h h'),
        words-append host master_port h,
        words_one master_port h',
      )
      refl

-- A host alone, which is not the word `master`, has no second word to be read.
pub config_of_one :
    (host : Bytes) (port : ℤ) → Word host → host ≢ codes "master" → config_of host port ≡ undefined
unfolding config_of word
config_of_one host port h ne = rw (bytes_eq_ne host (codes "master") ne, words_one host h) refl
