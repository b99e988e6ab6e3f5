-- ===== src/Commands/Store/Awaits.antt =====
-- BLPOP does what it promises.
use redis_cpp.Prelude.{
  ℕ, suc, ◌≡◌, refl, ◌∙◌, sym, ap, List, [], ◌∷◌, ◌++◌, arith, Option, none, some, true, Bool-cases,
  inl, inr,
}
use mathlib.Core.List.{map-append}
use redis_cpp.Prelude.Int.{ℤ}
use redis_cpp.Prelude.Bytes.{Bytes}
use redis_cpp.Prelude.Outcome.{ok}
use redis_cpp.Database
use redis_cpp.Database.{Database, Waiter, Floating, queue, enqueue}
use redis_cpp.Database.Table.{assign}
use redis_cpp.Database.Lists.{list_at}
use redis_cpp.Commands.{BlpopHandler, answer, serve_request, make_blpop}
use redis_cpp.Commands.ListStore.Serves.{remove_list_value-first}
use redis_cpp.Commands.Store.{Store, join, await}
use redis_cpp.Commands.Store.Shows.{Shows, place, place_for, assign-Queues, assign-View}
use redis_cpp.Commands.Store.Waits.{list-some}

-- A timeout that is not positive, or can be counted in milliseconds.
abbrev pub Countable : (F : Floating) → F.Double → Type 0
Countable F t = F.is_positive t ≡ true → (delay : ℤ) × (F.to_millis t ≡ ok delay)

enqueue-Shows :
    (db : Database BlpopHandler) (store : Store) (session : ℕ) (key : Bytes) (timer : Option ℤ)
    → Shows db store
    → Shows
        (enqueue db key (record { session = session; key = key }) timer)
        (join store session key []).0
unfolding enqueue join
enqueue-Shows db store session key timer (values, view, queues, count, master) = (
  values,
  view,
  assign-Queues db store key _ (store.waiting key ++ (store.tickets, session) ∷ []) queues (
      map-append place (queue db key) _
      ∙ rw (queues key, count)
          (sym (map-append (place_for key) (store.waiting key) ((store.tickets, session) ∷ [])))),
  ap suc count,
  master,
)

module _ (F : Floating) where
  open F use {Double}

  waits :
      (db : Database BlpopHandler) (key : Bytes) (t : Double) (handler : BlpopHandler)
      (l : Option (List Bytes))
      → db.list_store key ≡ l
      → list_at db key ≡ []
      → Countable F t
      → (timer : Option ℤ) × (Database.async_blpop F db key t handler
          ≡ ok (enqueue db key handler timer, []))
  unfolding Database.async_blpop
  waits db key t handler (some (x ∷ l)) e h c = absurd (ground arith)
  waits db key t handler none e h c = elim (Bool-cases (F.is_positive t)) [
    | inl p ↦
        let (delay, counted) = c p in (some delay, rw (Database.async_blpop, e, p, counted) refl)
    | inr z ↦ (none, rw (Database.async_blpop, e, z) refl)
  ]
  waits db key t handler (some []) e h c = elim (Bool-cases (F.is_positive t)) [
    | inl p ↦
        let (delay, counted) = c p in (some delay, rw (Database.async_blpop, e, p, counted) refl)
    | inr z ↦ (none, rw (Database.async_blpop, e, z) refl)
  ]

  pops :
      (db : Database BlpopHandler) (key x : Bytes) (t : Double) (handler : BlpopHandler)
      (l : List Bytes)
      → db.list_store key ≡ some (x ∷ l)
      → Database.async_blpop F db key t handler
        ≡ ok (record db { list_store = assign db.list_store key l }, (handler, some x) ∷ [])
  unfolding Database.async_blpop
  pops db key x t handler l e =
      rw (Database.async_blpop, e, remove_list_value-first db key x l e) refl

  await-at :
      (db : Database BlpopHandler) (store : Store) (session : ℕ) (key : Bytes) (t : Double)
      (l : List Bytes)
      → store.lists key ≡ l
      → Shows db store
      → Countable F t
      → (db' : Database BlpopHandler) × (serve_request F db session (make_blpop key t)
          ≡ ok (db', (join store session key l).1))
        × Shows db' (join store session key l).0
  unfolding serve_request join answer
  await-at db store session key t [] e shows c =
      let (timer, ran) =
        waits db key t (record { session = session; key = key }) (db.list_store key) refl
          (shows.1 key ∙ e) c in
      (
        enqueue db key (record { session = session; key = key }) timer,
        rw ran refl,
        enqueue-Shows db store session key timer shows,
      )
  await-at db store session key t (x ∷ l) e (values, view, queues, count, master) c =
      let stored = list-some db key x l (view key ∙ e) in
      (
        record db { list_store = assign db.list_store key l },
        rw (pops db key x t (record { session = session; key = key }) l stored) refl,
        (values, assign-View db store key l view, queues, count, master),
      )

  -- A client gets the first element, or waits behind the others.
  pub await-Shows :
      (db : Database BlpopHandler) (store : Store) (session : ℕ) (key : Bytes) (t : Double)
      → Shows db store
      → Countable F t
      → (db' : Database BlpopHandler) × (serve_request F db session (make_blpop key t)
          ≡ ok (db', (await store session key).1))
        × Shows db' (await store session key).0
  unfolding await
  await-Shows db store session key t shows c =
      await-at db store session key t (store.lists key) refl shows c
