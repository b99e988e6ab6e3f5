-- ===== src/Database/History.antt =====
-- The histories of a `Database`: its operations in any order, with the calls of handlers that each
-- makes.
pub mod Answered
use redis_cpp.Prelude.{ℕ, List, [], ◌∷◌, Bool}
use redis_cpp.Prelude.Int.{ℤ}
use redis_cpp.Prelude.Bytes.{Bytes}
use redis_cpp.Prelude.Outcome.{Outcome, ok, ◌>>=◌}
use redis_cpp.Database
use redis_cpp.Database.{Database, Floating, Calls}

pub data Op (F : Floating) (H : Type 0) : Type 0 where
  set_value : Bytes → Bytes → ℤ → Op F H
  on_expire : Bytes → Bool → Op F H
  set_list_value : Bytes → Bytes → Op F H
  set_list : Bytes → List Bytes → Op F H
  set_list_left : Bytes → List Bytes → Op F H
  remove_list_value : Bytes → Op F H
  remove_list_values : Bytes → ℤ → Op F H
  async_blpop : Bytes → F.Double → H → Op F H
  notify_list_push : Bytes → Op F H
  on_timeout : Bytes → ℕ → Bool → Op F H

module _ {F : Floating} {H : Type 0} where
  unfoldable pub subject : Op F H → Bytes
  subject (set_value key _ _) = key
  subject (on_expire key _) = key
  subject (set_list_value key _) = key
  subject (set_list key _) = key
  subject (set_list_left key _) = key
  subject (remove_list_value key) = key
  subject (remove_list_values key _) = key
  subject (async_blpop key _ _) = key
  subject (notify_list_push key) = key
  subject (on_timeout key _ _) = key

  unfoldable pub step : Op F H → Database H → Outcome (Database H × Calls H)
  step (set_value key value time) db = ok (Database.set_value db key value time, [])
  step (on_expire key ec) db = ok (Database.on_expire key ec db, [])
  step (set_list_value key value) db = ok ((Database.set_list_value db key value).0, [])
  step (set_list key values) db = ok ((Database.set_list db key values).0, [])
  step (set_list_left key values) db = ok ((Database.set_list_left db key values).0, [])
  step (remove_list_value key) db = Database.remove_list_value db key >>= λ (db', val). ok (db', [])
  step (remove_list_values key idx) db =
      Database.remove_list_values db key idx >>= λ (db', vals). ok (db', [])
  step (async_blpop key timeout handler) db = Database.async_blpop F db key timeout handler
  step (notify_list_push key) db = Database.notify_list_push db key
  step (on_timeout key id ec) db = ok (Database.on_timeout key id ec db)

  -- The operations in order, with the key of each and the calls it makes.
  unfoldable pub run : List (Op F H) → Database H → Outcome (Database H × List (Bytes × Calls H))
  unfolding step subject
  run [] db = ok (db, [])
  run (op ∷ ops) db = step op db >>= λ (db', calls).
      run ops db' >>= λ (db'', log). ok (db'', (subject op, calls) ∷ log)
