-- ===== src/Commands/Store/Laws.antt =====
-- A list that is empty, and those who wait for it, in the store of the promise.
use redis_cpp.Prelude.{ℕ, suc, ◌≡◌, refl, List, [], ◌∷◌, ◌++◌}
use redis_cpp.Prelude.Int.{pos}
use redis_cpp.Prelude.Bytes.{Bytes, bytes_eq_refl}
use redis_cpp.Resp.Array
use redis_cpp.Resp.Integer
use redis_cpp.Commands.ListStore
use redis_cpp.Commands.ListStore.{push}
use redis_cpp.Commands.Store.{
  Store, on_list, perform, serve_oldest, hand_over, pushed, await, join, reply,
}

abbrev pub Waits : Store → Bytes → List (ℕ × ℕ) → Type 0
Waits store key waiting = (store.lists key ≡ []) × (store.waiting key ≡ waiting)

pub await-Waits :
    (store : Store) (session : ℕ) (key : Bytes) (waiting : List (ℕ × ℕ))
    → Waits store key waiting
    → ((await store session key).1 ≡ [])
      × Waits (await store session key).0 key (waiting ++ (store.tickets, session) ∷ [])
      × ((await store session key).0.tickets ≡ suc store.tickets)
unfolding await join
await-Waits store session key waiting (l, w) =
    rw (await, l) (refl, (l, rw (bytes_eq_refl key, w) refl), refl)

pub perform-Waits :
    (store : Store) (producer i session : ℕ) (key v : Bytes) (rest : List (ℕ × ℕ))
    → Waits store key ((i, session) ∷ rest)
    → ((perform store producer (on_list (push key (v ∷ [])))).1
        ≡ (producer, Integer.to_resp (pos 1)) ∷ (session, Array.to_resp (key ∷ v ∷ [])) ∷ [])
      × Waits (perform store producer (on_list (push key (v ∷ [])))).0 key rest
unfolding perform pushed serve_oldest hand_over reply ListStore.reply
perform-Waits store producer i session key v rest (l, w) =
    rw (l, w, bytes_eq_refl key) (refl, (rw (bytes_eq_refl key) refl, rw (bytes_eq_refl key) refl))
