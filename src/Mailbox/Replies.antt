-- ===== src/Mailbox/Replies.antt =====
-- Which request an answer of the mailbox belongs to: pendingMailboxStore of `web/app.js` as a queue.
use tele.Prelude.{
  ◌≡◌, refl, sym, ap, ◌∙◌, true, false, List, [], ◌∷◌, ◌++◌, append-nil, append_assoc, arith,
  ===_refl, length,
}
use tele.Bytes.{Text, Bytes}
use tele.Mailbox.{
  Checks, timeout, too_big, mailbox_full, Outcome, stored, failed, Effect, send_store, resolved,
  Mailbox, emit, set_store, has_store, drop_store, mailbox_store, store_timeout, Reply, is_stored,
  is_too_big, is_full, answer_store, on_mailbox_message,
}

-- All tests of mailboxStoreText succeed.
pub record AllWell (t : Checks) : Type 0 where
  pub is_enabled : t.enabled ≡ true
  pub is_there : t.has_mailbox ≡ true
  pub is_connected : t.connected ≡ true
  pub keys : t.has_keys ≡ true
  pub xpub : t.has_xpub ≡ true
  pub goes_out : t.send_ok ≡ true

-- The answers to a STORE.
pub data Answer : Type 0 where
  yes big full : Answer

abbrev pub reply_of : Answer → Reply
reply_of yes = is_stored
reply_of big = is_too_big
reply_of full = is_full

abbrev pub outcome_of : Answer → Bytes → Outcome
outcome_of yes n = stored n
outcome_of big n = failed too_big
outcome_of full n = failed mailbox_full

unfoldable pub store_all : Checks → List (Text × Bytes) → Mailbox → Mailbox
store_all t [] s = s
store_all t ((id, n) ∷ qs) s = store_all t qs (mailbox_store t id n s)

unfoldable pub answer_all : List Answer → Mailbox → Mailbox
answer_all [] s = s
answer_all (r ∷ rs) s = answer_all rs (on_mailbox_message (reply_of r) s)

-- The effects of the requests, and of the answers in the same order.
unfoldable pub sends : List (Text × Bytes) → List Effect → List Effect
sends [] o = o
sends ((id, n) ∷ qs) o = sends qs (send_store id ∷ o)

unfoldable pub outcomes : List (Text × Bytes) → List Answer → List Effect → List Effect
outcomes [] rs o = o
outcomes (q ∷ qs) [] o = o
outcomes ((id, n) ∷ qs) (r ∷ rs) o = outcomes qs rs (resolved id (outcome_of r n) ∷ o)

-- No id stands in the queue l or twice among the requests.
abbrev pub AreNew : List (Text × Bytes) → List (Text × Bytes) → Type 0
AreNew [] l = Unit {0}
AreNew ((id, n) ∷ qs) l = (has_store id l ≡ false) × AreNew qs (l ++ ((id, n) ∷ []))

set_store-new :
    (id : Text) (n : Bytes) (l : List (Text × Bytes))
    → has_store id l ≡ false
    → set_store id n l ≡ l ++ ((id, n) ∷ [])
unfolding set_store has_store
set_store-new id n [] h = refl
set_store-new id n ((j, m) ∷ l) h = ground (arith, set_store-new id n l)

mailbox_store-well :
    (t : Checks) (id : Text) (n : Bytes) (s : Mailbox)
    → AllWell t
    → mailbox_store t id n s ≡ emit (send_store id) (record s { stores = set_store id n s.stores })
unfolding mailbox_store
mailbox_store-well t id n s w = ground (arith, w)

store_all_lem :
    (t : Checks) (qs : List (Text × Bytes)) (s : Mailbox)
    → AllWell t
    → AreNew qs s.stores
    → ((store_all t qs s).stores ≡ s.stores ++ qs) × ((store_all t qs s).out ≡ sends qs s.out)
unfolding store_all sends
store_all_lem t [] s w a = (sym (append-nil s.stores), refl)
store_all_lem t ((id, n) ∷ qs) s w a =
    let s' : Mailbox = record s {
      stores = s.stores ++ ((id, n) ∷ []);
      out = send_store id ∷ s.out;
    } in
    grind (
      arith,
      mailbox_store-well t id n s w,
      set_store-new id n s.stores a.0,
      store_all_lem t qs s' w a.1,
      append_assoc s.stores ((id, n) ∷ []) qs,
    )

answer_all_lem :
    (qs : List (Text × Bytes)) (rs : List Answer) (s : Mailbox)
    → length rs ≡ length qs
    → s.stores ≡ qs
    → ((answer_all rs s).stores ≡ []) × ((answer_all rs s).out ≡ outcomes qs rs s.out)
unfolding answer_all outcomes on_mailbox_message answer_store
answer_all_lem [] [] s l e = (e, refl)
answer_all_lem [] (r ∷ rs) s l e = absurd (omega (arith, l))
answer_all_lem (q ∷ qs) [] s l e = absurd (omega (arith, l))
answer_all_lem ((id, n) ∷ qs) (r ∷ rs) s l e =
    let s' : Mailbox = record s { stores = qs; out = resolved id (outcome_of r n) ∷ s.out } in
    grind (arith, answer_all_lem qs rs s')

-- When nothing is pending, requests with different ids are sent without a failed test, and the
-- mailbox answers each of them once, in their order and before any timer fires: every request is
-- resolved with its own answer and its own nonce, in that order, and nothing stays pending.
pub replies_in_order :
    (t : Checks) (qs : List (Text × Bytes)) (rs : List Answer) (s : Mailbox)
    → AllWell t
    → s.stores ≡ []
    → AreNew qs []
    → length rs ≡ length qs
    → let d = answer_all rs (store_all t qs s) in
      (d.stores ≡ []) × (d.out ≡ outcomes qs rs (sends qs s.out))
replies_in_order t qs rs s w e a l =
    let (queue, sent) = store_all_lem t qs s w (rw e a) in
    let (empty, answered) = answer_all_lem qs rs (store_all t qs s) l (queue ∙ rw e refl) in
    (empty, answered ∙ ap (outcomes qs rs) sent)

timed_out :
    (t : Checks) (a : Text) (m : Bytes) (s : Mailbox)
    → AllWell t
    → s.stores ≡ []
    → store_timeout a (mailbox_store t a m s)
      ≡ emit (resolved a (failed timeout)) (emit (send_store a) s)
unfolding store_timeout set_store has_store drop_store
timed_out t a m s w e = grind (arith, mailbox_store-well t a m s w, ===_refl a)

one_pending :
    (t : Checks) (b : Text) (n : Bytes) (s : Mailbox)
    → AllWell t
    → s.stores ≡ []
    → (mailbox_store t b n s).stores ≡ (b, n) ∷ []
unfolding set_store
one_pending t b n s w e = grind (arith, mailbox_store-well t b n s w)

shifted :
    (b : Text) (n : Bytes) (r : Answer) (d : Mailbox)
    → d.stores ≡ (b, n) ∷ []
    → let d' = on_mailbox_message is_stored d in
      (d'.out ≡ resolved b (stored n) ∷ d.out) × (on_mailbox_message (reply_of r) d' ≡ d')
unfolding on_mailbox_message answer_store
shifted b n yes d e = ground (arith, e)
shifted b n big d e = ground (arith, e)
shifted b n full d e = ground (arith, e)

-- A request a that timed out, and then a request b, both sent without a failed test when nothing
-- else is pending: the late answer to a resolves b as stored, with the nonce of b, and
-- any answer of the mailbox to b then changes nothing.
pub late_answer_shifts :
    (t : Checks) (a b : Text) (m n : Bytes) (r : Answer) (s : Mailbox)
    → AllWell t
    → s.stores ≡ []
    → let d = mailbox_store t b n (store_timeout a (mailbox_store t a m s)) in
      let d' = on_mailbox_message is_stored d in
      (d'.out ≡ resolved b (stored n) ∷ d.out) × (on_mailbox_message (reply_of r) d' ≡ d')
late_answer_shifts t a b m n r s w e =
    let s' = emit (resolved a (failed timeout)) (emit (send_store a) s) in
    rw (timed_out t a m s w e) (shifted b n r (mailbox_store t b n s') (one_pending t b n s' w e))
