-- ===== src/Server/Connection/Push.antt =====
-- The end of a wait by a push.
use mathlib.Core.Path.{subst}
use redis_cpp.Prelude.{
  ℕ, ◌-◌, ◌<◌, ◌≤◌, ◌≡◌, ◌==◌, ==_self, ==_iff, ◌∙◌, refl, sym, true, false, Bool-cases, inl, inr,
  List, [], ◌∷◌, append-nil, length, arith,
}
use redis_cpp.Prelude.Int.{pos, int_max}
use redis_cpp.Prelude.Bytes.{Bytes, codes}
use redis_cpp.Prelude.Outcome.{ok, >>=-ok}
use redis_cpp.Resp.Array
use redis_cpp.Resp.Integer
use redis_cpp.Database.{Database, Waiter, Floating, ServerConfig, queue}
use redis_cpp.Database.Lists.{list_at}
use redis_cpp.Commands.{BlpopHandler, Replies, answer, serve_request, make_rpush}
use redis_cpp.Commands.Delivery.{rpush_serves_oldest}
use redis_cpp.Commands.Router.StoreCommands.{get_command-rpush}
use redis_cpp.Resp.Array.Size.{short_items}
use redis_cpp.Server.Request.{handle_request, max_read}
use redis_cpp.Server.Request.RoundTrip.{handle_request-to_resp}
use redis_cpp.Server.Connection.{World, update, send_response, deliver, settle, on_read}
use redis_cpp.Server.Connection.Steps.{Reach}
use redis_cpp.Server.Connection.Safe.{replies_never_overlap}

-- The reply is being written.
abbrev pub Sends : World → ℕ → Bytes → Type 0
Sends w s resp = ((w.connections s).writing ≡ true) × ((w.connections s).message ≡ resp)

-- Where a reply is sent nothing was being written.
send_response-update :
    (s : ℕ) (resp : Bytes) (w w' : World)
    → send_response s resp w ≡ ok w'
    → ((w.connections s).writing ≡ false)
      × (update w s (record (w.connections s) { message = resp; writing = true }) ≡ w')
unfolding send_response
send_response-update s resp w w' h = ground arith

sent-Sends :
    (s : ℕ) (resp : Bytes) (w w' : World) → send_response s resp w ≡ ok w' → Sends w' s resp
unfolding update
sent-Sends s resp w w' h =
    subst (λ x. Sends x s resp) (send_response-update s resp w w' h).1
      (rw (==_self s) refl, rw (==_self s) refl)

-- What is being written stays as it is.
sent-kept :
    (s t : ℕ) (resp other : Bytes) (w w' : World)
    → send_response t other w ≡ ok w'
    → Sends w s resp
    → Sends w' s resp
unfolding update
sent-kept s t resp other w w' h (busy, message) =
    let (free, e) = send_response-update t other w w' h in
    elim (Bool-cases (t == s)) [
      | inl same ↦
          let at_once : (w.connections t).writing ≡ true =
            subst (λ k. (w.connections k).writing ≡ true) (sym ((==_iff t s).0 same)) busy in
          absurd (cc)
      | inr apart ↦ subst (λ x. Sends x s resp) e (rw apart busy, rw apart message)
    ]

delivered_two :
    (s t : ℕ) (a b : Bytes) (w w' : World)
    → deliver ((s, a) ∷ (t, b) ∷ []) w ≡ ok w'
    → Sends w' s a × Sends w' t b
unfolding deliver
delivered_two s t a b w w' h =
    let (w1, e, rest) = >>=-ok (send_response s a w) (deliver ((t, b) ∷ [])) h in
    let (w2, e', rest') = >>=-ok (send_response t b w1) (deliver []) rest in
    let last : w2 ≡ w' = cc in
    subst (λ x. Sends x s a × Sends x t b) last
      (sent-kept s t a b w1 w2 e' (sent-Sends s a w w1 e), sent-Sends t b w1 w2 e')

rpush_request :
    (F : Floating) (db db' : Database BlpopHandler) (s : ℕ) (key v : Bytes) (replies : Replies)
    → length (Array.to_resp (codes "RPUSH" ∷ key ∷ v ∷ [])) ≤ max_read
    → serve_request F db s (make_rpush key (v ∷ [])) ≡ ok (db', replies)
    → handle_request F db s (Array.to_resp (codes "RPUSH" ∷ key ∷ v ∷ [])) ≡ ok (db', replies)
rpush_request F db db' s key v replies fits ran =
    let texts = codes "RPUSH" ∷ key ∷ v ∷ [] in
    let short = short_items max_read int_max texts fits (omega arith) in
    rw append-nil at
      (handle_request-to_resp F db s (codes "RPUSH") (key ∷ v ∷ []) [] (omega arith) short)
    ∙ rw (get_command-rpush F key (v ∷ [])) ran

settled_two :
    (s t : ℕ) (a b : Bytes) (db : Database BlpopHandler) (w w' : World)
    → settle w (ok (db, (s, a) ∷ (t, b) ∷ [])) ≡ ok w'
    → Sends w' s a × Sends w' t b
unfolding settle
settled_two s t a b db w w' h = delivered_two s t a b (record w { db = db }) w' h

module _ {F : Floating} {config : ServerConfig} {w : World} {failed : List ℕ} where
  -- In every state that the server comes to, when a client sends an RPUSH of one value, in a request
  -- that fits into one read, on an empty list for which clients wait, the value is being written to the
  -- one that has waited longest, and the length to the one that pushed; the others wait on, in their
  -- order.
  pub push_answers :
      (s : ℕ) (key v : Bytes) (waiter : Waiter BlpopHandler) (rest : List (Waiter BlpopHandler))
      → Reach F config w failed
      → 0 < (w.connections s).reads
      → queue w.db key ≡ waiter ∷ rest
      → list_at w.db key ≡ []
      → length (Array.to_resp (codes "RPUSH" ∷ key ∷ v ∷ [])) ≤ max_read
      → (w' : World) × (on_read F s false (Array.to_resp (codes "RPUSH" ∷ key ∷ v ∷ [])) w ≡ ok w')
        × Sends w' s (Integer.to_resp (pos 1))
        × Sends w' waiter.handler.session (Array.to_resp (waiter.handler.key ∷ v ∷ []))
        × (queue w'.db key ≡ rest)
  unfolding on_read settle answer
  push_answers s key v waiter rest r reading waiting empty fits =
      let (db', ran, left, _) =
        rpush_serves_oldest F w.db s key v [] waiter rest waiting empty (omega arith) in
      let t = waiter.handler.session in
      let a = Integer.to_resp (pos 1) in
      let b = Array.to_resp (waiter.handler.key ∷ v ∷ []) in
      let w1 = update w s (record (w.connections s) { reads = (w.connections s).reads - 1 }) in
      let served = rpush_request F w.db db' s key v _ fits ran in
      let (w', did, same) =
        replies_never_overlap s (Array.to_resp (codes "RPUSH" ∷ key ∷ v ∷ [])) db' _ r reading
          served in
      let (to_s, to_t) =
        settled_two s t a b db' w1 w' (subst (λ m. settle w1 m ≡ ok w') served did) in
      (w', did, to_s, to_t, rw same left)
