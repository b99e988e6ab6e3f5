-- ===== src/Commands/ListStore/Serves.antt =====
-- The list commands do what they promise.
use redis_cpp.Prelude.{
  ℕ, ◌≤◌, ◌≡◌, refl, sym, ◌∙◌, [], ◌∷◌, ◌++◌, List, map, length, length-reverse, drop, arith, false,
  Option, none, some, le→leb,
}
use mathlib.Core.Path.{subst}
use redis_cpp.Prelude.Int.{ℤ, pos, int_max, IsInt, to_int-IsInt, to_int_pos, leb_ℤ}
use redis_cpp.Prelude.Bytes.{Bytes}
use redis_cpp.Prelude.Outcome.{ok, ◌>>=◌}
use redis_cpp.Database
use redis_cpp.Database.{Database, Floating, queue}
use redis_cpp.Database.Table.{assign}
use redis_cpp.Database.Lists.{list_at, set_list_lem, set_list_left_lem, remove_list_values-take}
use redis_cpp.Database.Range.{get_list_range-select}
use redis_cpp.Commands.{
  BlpopHandler, Result, answer, serve_request, serve_push, serve_lpop, lpop_one, lpop_many,
}
use redis_cpp.Commands.ListStore.{
  Lists, ListCommand, push, push_front, size, between, pop_first, pop, command, next, reply,
  first_text, pushed, Allowed,
}

-- The lists of a database.
abbrev pub View : Database BlpopHandler → Lists → Type 0
View db lists = (k : Bytes) → list_at db k ≡ lists k

-- All but the lists and the timers is as it was.
abbrev pub Kept : Database BlpopHandler → Database BlpopHandler → Type 0
Kept db db' =
    (db'.kv_store ≡ db.kv_store)
    × (db'.config ≡ db.config)
    × (db'.waiters ≡ db.waiters)
    × (db'.waiter_count ≡ db.waiter_count)

set_list-Kept :
    (db : Database BlpopHandler) (key : Bytes) (values : List Bytes)
    → Kept db (Database.set_list db key values).0
unfolding Database.set_list Database.find_list_store_value
set_list-Kept db key values = (ground arith, ground arith, ground arith, ground arith)

set_list_left-Kept :
    (db : Database BlpopHandler) (key : Bytes) (values : List Bytes)
    → Kept db (Database.set_list_left db key values).0
unfolding Database.set_list_left
set_list_left-Kept db key values = (refl, refl, refl, refl)

-- The reply to a client, and what is told to the oldest of those that wait for the list on which
-- values were pushed, if any.
unfoldable pub announced : ℕ → Bytes → Option Bytes → Database BlpopHandler → Result
announced session text none db = ok (db, (session, text) ∷ [])
announced session text (some key) db = Database.notify_list_push db key >>= λ (db', calls).
    ok (db', (session, text) ∷ map answer calls)

pub not_empty :
    (db : Database BlpopHandler) (key : Bytes) (q : Option (List Bytes))
    → db.list_store key ≡ q
    → 1 ≤ length (list_at db key)
    → (x : Bytes) × (vec : List Bytes) × (db.list_store key ≡ some (x ∷ vec))
not_empty db key none e h = absurd (ground arith)
not_empty db key (some []) e h = absurd (ground arith)
not_empty db key (some (x ∷ vec)) e h = (x, vec, e)

pub remove_list_value-first :
    (db : Database BlpopHandler) (key x : Bytes) (vec : List Bytes)
    → db.list_store key ≡ some (x ∷ vec)
    → Database.remove_list_value db key
      ≡ ok (record db { list_store = assign db.list_store key vec }, x)
unfolding Database.remove_list_value
remove_list_value-first db key x vec e = ground arith

module _ (F : Floating) where
  module _ (db : Database BlpopHandler) (lists : Lists) (session : ℕ) (view : View db lists) where
    abbrev pub Served : ListCommand → Type 0
    Served c =
        (db' : Database BlpopHandler) × (serve_request F db session (command c)
          ≡ announced session (reply lists c) (pushed c) db')
        × View db' (next lists c)
        × Kept db db'

    push-Served :
        (key : Bytes) (values : List Bytes)
        → length (lists key ++ values) ≤ int_max
        → Served (push key values)
    unfolding serve_request serve_push reply announced
    push-Served key values h =
        let (all, total) = set_list_lem db key values (rw (view key) h) in
        (
          (Database.set_list db key values).0,
          rw (total, view key) refl,
          (λ k. all k ∙ rw (view key, view k) refl),
          set_list-Kept db key values,
        )

    push_front-Served :
        (key : Bytes) (values : List Bytes)
        → length (lists key ++ values) ≤ int_max
        → Served (push_front key values)
    unfolding serve_request serve_push reply announced
    push_front-Served key values h =
        let (all, total) =
          set_list_left_lem db key values
            (rw (length-reverse (list_at db key ++ values), view key) h) in
        (
          (Database.set_list_left db key values).0,
          rw (total, view key) refl,
          (λ k. all k ∙ rw (view key, view k) refl),
          set_list_left-Kept db key values,
        )

    size-Served : (key : Bytes) → length (lists key) ≤ int_max → Served (size key)
    unfolding serve_request reply Database.get_list_length announced
    size-Served key h = (db, ground (arith, view key), view, (refl, refl, refl, refl))

    between-Served :
        (key : Bytes) (first last : ℤ)
        → length (lists key) ≤ int_max
        → IsInt first
        → IsInt last
        → Served (between key first last)
    unfolding serve_request reply announced
    between-Served key first last h i j = (
      db,
      rw
          (
            to_int-IsInt first i,
            to_int-IsInt last j,
            get_list_range-select db key first last (rw (view key) h),
            view key,
          )
          refl,
      view,
      (refl, refl, refl, refl),
    )

    pop_first-at :
        (key x : Bytes) (vec : List Bytes)
        → db.list_store key ≡ some (x ∷ vec)
        → x ∷ vec ≡ lists key
        → Served (pop_first key)
    unfolding serve_request serve_lpop lpop_one reply first_text assign announced
    pop_first-at key x vec e whole = (
      record db { list_store = assign db.list_store key vec },
      rw (remove_list_value-first db key x vec e, ← whole) refl,
      (λ k. rw (← whole) (ground (arith, view k))),
      (refl, refl, refl, refl),
    )

    pop_first-Served : (key : Bytes) → 1 ≤ length (lists key) → Served (pop_first key)
    pop_first-Served key h =
        let (x, vec, e) = not_empty db key (db.list_store key) refl (rw (view key) h) in
        pop_first-at key x vec e (ground (arith, view key))

    pop-at :
        (key : Bytes) (n : ℕ) (vec : List Bytes)
        → db.list_store key ≡ some vec
        → vec ≡ lists key
        → 2 ≤ n
        → n ≤ length vec
        → n ≤ int_max
        → Served (pop key n)
    unfolding serve_request serve_lpop lpop_many reply assign announced
    pop-at key n vec e whole two h fits =
        let more : leb_ℤ (pos n) (pos 1) ≡ false = ground arith in
        (
          record db { list_store = assign db.list_store key (drop n vec) },
          rw
              (
                more,
                to_int_pos n fits,
                remove_list_values-take db key vec n e,
                le→leb n (length vec) h,
                ← whole,
              )
              refl,
          (λ k. rw (← whole) (ground (arith, view k))),
          (refl, refl, refl, refl),
        )

    pop-Served :
        (key : Bytes) (n : ℕ) → 2 ≤ n → n ≤ length (lists key) → n ≤ int_max → Served (pop key n)
    pop-Served key n two h fits =
        let (x, vec, e) = not_empty db key (db.list_store key) refl (rw (view key) (omega arith)) in
        let whole : x ∷ vec ≡ lists key = ground (arith, view key) in
        pop-at key n (x ∷ vec) e whole two (subst (λ l. n ≤ length l) (sym whole) h) fits

    -- A command whose request is allowed is answered as promised, and a push is announced on the lists
    -- that are promised.
    pub serve_request-Served : (c : ListCommand) → Allowed lists c → Served c
    serve_request-Served (push key values) h = push-Served key values h.1
    serve_request-Served (push_front key values) h = push_front-Served key values h.1
    serve_request-Served (size key) h = size-Served key h
    serve_request-Served (between key first last) h = between-Served key first last h.0 h.1 h.2
    serve_request-Served (pop_first key) h = pop_first-Served key h
    serve_request-Served (pop key n) h = pop-Served key n h.0 h.1 h.2
