-- ===== src/Storage/Clear.antt =====
-- clearHistory: what is gone, and what stays (`web/storage.js`).
use tele.Prelude.{
  ◌≡◌, refl, ◌∙◌, Bool, true, false, Option, none, some, [], ◌∷◌, arith, if◌then◌else◌, ◌===◌,
}
use tele.Bytes.{Text}
use tele.Table.{Table, lookup, select, lookup-delete}
use tele.Table.Order.{IsOrdered, lookup-select}
use tele.Storage.{Message, Store, clear_rows, of_peer, clear_history}

abbrev is_some {ℓ} : {A : Type ℓ} → Option A → Bool
is_some none = false
is_some (some a) = true

lookup-clear_rows :
    (k : Text) (rows : Table Message) (s : Store)
    → lookup k (clear_rows rows s).messages
      ≡ (if is_some (lookup k rows) then none else lookup k s.messages)
unfolding clear_rows lookup
lookup-clear_rows k [] s = refl
lookup-clear_rows k ((id, m) ∷ rows) s =
    lookup-clear_rows k rows _ ∙ rw (lookup-delete id k s.messages) (ground (arith))

lookup_outbox-clear_rows :
    (k : Text) (rows : Table Message) (s : Store)
    → lookup k (clear_rows rows s).outbox
      ≡ (if is_some (lookup k rows) then none else lookup k s.outbox)
unfolding clear_rows lookup
lookup_outbox-clear_rows k [] s = refl
lookup_outbox-clear_rows k ((id, m) ∷ rows) s =
    lookup_outbox-clear_rows k rows _ ∙ rw (lookup-delete id k s.outbox) (ground (arith))

abbrev pub is_with : Text → Option Message → Bool
is_with peer_id none = false
is_with peer_id (some m) = m.peer_id === peer_id

-- In a store whose message table is in the order of its keys: after clearHistory the messages with
-- the peer are gone with their outbox entries, and every other message and entry is what it was.
pub clear_history_exact :
    (peer_id k : Text) (s : Store)
    → IsOrdered s.messages
    → let s' = (clear_history peer_id s).1 in
      let gone = is_with peer_id (lookup k s.messages) in
      (lookup k s'.messages ≡ (if gone then none else lookup k s.messages))
      × (lookup k s'.outbox ≡ (if gone then none else lookup k s.outbox))
unfolding clear_history
clear_history_exact peer_id k s o = ground (
  arith,
  lookup-clear_rows k (select (of_peer peer_id) s.messages) s,
  lookup_outbox-clear_rows k (select (of_peer peer_id) s.messages) s,
  lookup-select (of_peer peer_id) k s.messages o,
)
