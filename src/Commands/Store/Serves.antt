-- ===== src/Commands/Store/Serves.antt =====
-- The commands do what they promise.
use redis_cpp.Prelude.{
  ℕ, ◌≡◌, ◌∙◌, refl, true, [], ◌∷◌, ◌++◌, length-reverse, arith, Option, none, some, if◌then◌else◌,
}
use redis_cpp.Prelude.Int.{ℤ, pos, IsLongLong}
use redis_cpp.Prelude.Bytes.{Bytes, codes, bytes_eq, bytes_eq_refl}
use redis_cpp.Prelude.Outcome.{ok}
use redis_cpp.Resp.BulkString
use redis_cpp.Database
use redis_cpp.Database.{Database, Floating}
use redis_cpp.Database.Values.{set_value_timed-on_clock}
use redis_cpp.Commands.{
  BlpopHandler, serve_request, serve_ping, serve_get, serve_set, serve_info, info_master,
  info_slave,
}
use redis_cpp.Commands.Stoll.RoundTrip.{stoll-to_string}
use redis_cpp.Commands.ListStore
use redis_cpp.Commands.ListStore.{ListCommand, push, push_front, size, between, pop_first, pop}
use redis_cpp.Commands.ListStore.Serves
use redis_cpp.Commands.ListStore.Serves.{announced}
use redis_cpp.Commands.Store.Shows.{Shows, set_value-Shows}
use redis_cpp.Commands.Store.Waits.{announced-Shows}
use redis_cpp.Commands.Store.{
  Store, StoreCommand, greet, say, put, put_for, find, on_list, role, configure, command, next,
  reply, Allowed, pushed, perform, serve_oldest, value_text,
}

serve_get-get_value :
    (db : Database BlpopHandler) (key : Bytes) (q : Option Bytes)
    → db.kv_store key ≡ q
    → serve_get (Database.get_value db key) ≡ value_text q
unfolding serve_get value_text Database.get_value Database.find_kv_store_value
serve_get-get_value db key none h = ground arith
serve_get-get_value db key (some []) h = ground arith
serve_get-get_value db key (some (c ∷ value)) h = ground arith

module _ (F : Floating) where
  module _ (db : Database BlpopHandler) (store : Store) (session : ℕ) (shows : Shows db store) where
    -- The request alone, and then what is announced.
    abbrev Served : StoreCommand → Type 0
    Served c =
        (db' : Database BlpopHandler) × (serve_request F db session (command c)
          ≡ announced session (reply store c) (pushed c) db')
        × Shows db' (next store c)

    put_for-Served :
        (key value : Bytes) (time : ℤ)
        → IsLongLong time
        → F.on_clock time ≡ true
        → Served (put_for key value time)
    unfolding serve_request serve_set reply pushed announced
    put_for-Served key value time h timely = (
      Database.set_value db key value time,
      rw (stoll-to_string time h, set_value_timed-on_clock F db key value time timely) refl,
      set_value-Shows db store key value time shows,
    )

    find-Served : (key : Bytes) → Served (find key)
    unfolding serve_request reply pushed announced
    find-Served key =
        (db, rw (serve_get-get_value db key (store.values key) (shows.0 key)) refl, shows)

    role-Served : Served role
    unfolding serve_request serve_info reply pushed announced
    role-Served =
        let text : serve_info db.config.master_address
            ≡ BulkString.to_resp (
                if bytes_eq store.master_address (codes "master")
                then info_master
                else info_slave) =
          ground (arith, shows.4) in
        (db, rw text refl, shows)

    on_list-Served : (c : ListCommand) → ListStore.Allowed store.lists c → Served (on_list c)
    unfolding reply pushed
    on_list-Served c h =
        let (db', served, view, kept) =
          Serves.serve_request-Served F db store.lists session shows.1 c h in
        let (values, config, waiters, count) = kept in
        (
          db',
          served,
          (
            (λ k. rw values (shows.0 k)),
            view,
            (λ k. rw waiters (shows.2 k)),
            rw count shows.3,
            rw config shows.4,
          ),
        )

    first-Served : (c : StoreCommand) → Allowed F store c → Served c
    unfolding serve_request serve_ping serve_set reply pushed announced Database.set_value_timed
    first-Served (greet none) h = (db, refl, shows)
    first-Served (greet (some message)) h = (db, refl, shows)
    first-Served (say message) h = (db, refl, shows)
    first-Served (put key value) h = (
      Database.set_value db key value (pos 0),
      refl,
      set_value-Shows db store key value (pos 0) shows,
    )
    first-Served (put_for key value time) h = put_for-Served key value time h.0 h.1
    first-Served (find key) h = find-Served key
    first-Served (on_list c) h = on_list-Served c h
    first-Served role h = role-Served
    first-Served (configure args) h = (db, refl, shows)

  -- What a push announces, on lists that are not empty.
  announced-pushed :
      (db : Database BlpopHandler) (store store1 : Store) (session : ℕ) (text : Bytes)
      (c : ListCommand)
      → Shows db store1
      → store1.lists ≡ ListStore.next store.lists c
      → ListStore.Allowed store.lists c
      → (db' : Database BlpopHandler) × (announced session text (ListStore.pushed c) db
          ≡ ok (db', (session, text) ∷ (serve_oldest store1 (ListStore.pushed c)).1))
        × Shows db' (serve_oldest store1 (ListStore.pushed c)).0
  unfolding announced serve_oldest
  announced-pushed db store store1 session text (push key values) shows e h =
      announced-Shows db store1 session text key shows (rw (e, bytes_eq_refl key) h.0)
  announced-pushed db store store1 session text (push_front key values) shows e h =
      announced-Shows db store1 session text key shows
        (rw (e, bytes_eq_refl key, length-reverse (store.lists key ++ values)) h.0)
  announced-pushed db store store1 session text (size key) shows e h = (db, refl, shows)
  announced-pushed db store store1 session text (between key first last) shows e h =
      (db, refl, shows)
  announced-pushed db store store1 session text (pop_first key) shows e h = (db, refl, shows)
  announced-pushed db store store1 session text (pop key n) shows e h = (db, refl, shows)

  announced-perform :
      (db : Database BlpopHandler) (store : Store) (session : ℕ) (c : StoreCommand)
      → Shows db (next store c)
      → Allowed F store c
      → (db' : Database BlpopHandler) × (announced session (reply store c) (pushed c) db
          ≡ ok (db', (perform store session c).1))
        × Shows db' (perform store session c).0
  unfolding perform pushed announced serve_oldest
  announced-perform db store session (on_list c) shows h =
      announced-pushed db store (next store (on_list c)) session (reply store (on_list c)) c shows
        refl h
  announced-perform db store session (greet message) shows h = (db, refl, shows)
  announced-perform db store session (say message) shows h = (db, refl, shows)
  announced-perform db store session (put key value) shows h = (db, refl, shows)
  announced-perform db store session (put_for key value time) shows h = (db, refl, shows)
  announced-perform db store session (find key) shows h = (db, refl, shows)
  announced-perform db store session role shows h = (db, refl, shows)
  announced-perform db store session (configure args) shows h = (db, refl, shows)

  -- A command whose request is allowed is answered as promised, with the answer to one who waited; the
  -- store is then that of the promise.
  pub serve_request-perform :
      (db : Database BlpopHandler) (store : Store) (session : ℕ) (c : StoreCommand)
      → Shows db store
      → Allowed F store c
      → (db' : Database BlpopHandler) × (serve_request F db session (command c)
          ≡ ok (db', (perform store session c).1))
        × Shows db' (perform store session c).0
  serve_request-perform db store session c shows h =
      let (db1, served, shows1) = first-Served db store session shows c h in
      let (db', told, shows') = announced-perform db1 store session c shows1 h in
      (db', served ∙ told, shows')
