-- ===== src/Mailbox.antt =====
-- The client of the mailbox in `web/app.js`: messages that are left for a peer who is offline, and
-- the loop that fetches what was left for this client. What the page knows of the connection and
-- the address book at a call is a record of tests; the nonce that an envelope gets is an argument.
pub mod Replies
pub mod Drain
pub mod Session
pub mod Envelope
pub mod Tests
use tele.Prelude.{
  ℕ, Bool, true, false, not, ◌&&◌, ◌||◌, Option, none, some, List, [], ◌∷◌, ◌++◌, leb, ◌==◌,
  if◌then◌else◌, ◌===◌,
}
use tele.Bytes.{Text, Bytes, hex_of}
use tele.Wire.Codes.{
  group_invite, group_ice, mbx_delivery, mbx_empty, mbx_too_big, mbx_mailbox_full, mbx_stored,
  mbx_deleted, mbx_not_found,
}

-- Where the dispatcher of the page sends a frame.
pub data Route : Type 0 where
  to_group to_mailbox to_call : Route

-- isMailboxFrame; `mid` is mailboxIdHex, which is empty when there is no mailbox.
unfoldable pub is_mailbox_frame : Text → Bytes → ℕ → Bool
is_mailbox_frame [] from_id cmd = false
is_mailbox_frame (m ∷ mid) from_id cmd =
    hex_of from_id === (m ∷ mid)
    && (cmd == mbx_delivery
        || cmd == mbx_empty
        || cmd == mbx_stored
        || cmd == mbx_too_big
        || cmd == mbx_mailbox_full
        || cmd == mbx_deleted
        || cmd == mbx_not_found)

-- `client.onPeer` of the page.
unfoldable pub route : Text → Bytes → ℕ → Route
unfolding is_mailbox_frame
route mid from_id cmd =
    if leb group_invite cmd && leb cmd group_ice
    then to_group
    else if is_mailbox_frame mid from_id cmd
    then to_mailbox
    else to_call

-- The tests that mailboxStoreText, mailboxDeleteText and fetchMailbox make, in the order of the
-- code: the setting, ensureMailboxPeer, isConnected, hasPeer, qrXpubBytes, and the send itself.
pub record Checks : Type 0 where
  pub enabled : Bool
  pub has_mailbox : Bool
  pub connected : Bool
  pub has_keys : Bool
  pub has_xpub : Bool
  pub send_ok : Bool

-- The reason of a request that fails.
pub data Reason : Type 0 where
  disabled no_mailbox offline no_nonce no_peer_keys no_peer_xpub ws_down : Reason
  timeout too_big mailbox_full not_found : Reason

pub data Outcome : Type 0 where
  -- the nonce of a message that was stored
  stored : Bytes → Outcome
  deleted : Outcome
  failed : Reason → Outcome

pub data Effect : Type 0 where
  send_store send_delete : Text → Effect
  send_fetch : Effect
  -- the promise of a request resolves
  resolved : Text → Outcome → Effect
  -- an envelope goes to the dispatcher of live frames
  reinjected : Bytes → Effect
  warned : Effect

pub record Mailbox : Type 0 where
  -- pendingMailboxStore, the oldest first, with the nonces
  pub stores : List (Text × Bytes)
  -- pendingMailboxDelete, the oldest first
  pub deletes : List Text
  pub fetching : Bool
  -- the newest effect first
  pub out : List Effect

abbrev pub new_mailbox : Mailbox
new_mailbox = record { stores = []; deletes = []; fetching = false; out = [] }

abbrev pub emit : Effect → Mailbox → Mailbox
emit e s = record s { out = e ∷ s.out }

-- `pendingMailboxStore.set`: a key that is there keeps its place.
unfoldable pub set_store : Text → Bytes → List (Text × Bytes) → List (Text × Bytes)
set_store id nonce [] = (id, nonce) ∷ []
set_store id nonce ((j, n) ∷ l) =
    let rest = set_store id nonce l in if j === id then (j, nonce) ∷ l else (j, n) ∷ rest

unfoldable pub has_store : Text → List (Text × Bytes) → Bool
has_store id [] = false
has_store id ((j, n) ∷ l) = j === id || has_store id l

unfoldable pub drop_store : Text → List (Text × Bytes) → List (Text × Bytes)
drop_store id [] = []
drop_store id ((j, n) ∷ l) = let rest = drop_store id l in if j === id then l else (j, n) ∷ rest

unfoldable pub has_delete : Text → List Text → Bool
has_delete id [] = false
has_delete id (j ∷ l) = j === id || has_delete id l

unfoldable pub drop_delete : Text → List Text → List Text
drop_delete id [] = []
drop_delete id (j ∷ l) = let rest = drop_delete id l in if j === id then l else j ∷ rest

-- mailboxStoreText
unfoldable pub mailbox_store : Checks → Text → Bytes → Mailbox → Mailbox
unfolding set_store
mailbox_store t id nonce s =
    if not t.enabled
    then emit (resolved id (failed disabled)) s
    else if not t.has_mailbox
    then emit (resolved id (failed no_mailbox)) s
    else if not t.connected
    then emit (resolved id (failed offline)) s
    else if not t.has_keys
    then emit (resolved id (failed no_peer_keys)) s
    else if not t.has_xpub
    then emit (resolved id (failed no_peer_xpub)) s
    else if not t.send_ok
    then emit (resolved id (failed ws_down)) s
    else emit (send_store id) (record s { stores = set_store id nonce s.stores })

-- mailboxDeleteText, with the nonce that getMailboxNonce returns.
unfoldable pub mailbox_delete : Checks → Text → Option Bytes → Mailbox → Mailbox
unfolding has_delete
mailbox_delete t id nonce s =
    if not t.has_mailbox
    then emit (resolved id (failed no_mailbox)) s
    else if not t.connected
    then emit (resolved id (failed offline)) s
    else elim nonce [
      | none ↦ emit (resolved id (failed no_nonce)) s
      | some n ↦
          if not t.has_keys
          then emit (resolved id (failed no_peer_keys)) s
          else if not t.has_xpub
          then emit (resolved id (failed no_peer_xpub)) s
          else if not t.send_ok
          then emit (resolved id (failed ws_down)) s
          else emit (send_delete id) (record s {
            deletes = if has_delete id s.deletes then s.deletes else s.deletes ++ (id ∷ []);
          })
    ]

-- The timer of a STORE, eight seconds after it.
unfoldable pub store_timeout : Text → Mailbox → Mailbox
unfolding has_store drop_store
store_timeout id s =
    if has_store id s.stores
    then emit (resolved id (failed timeout)) (record s { stores = drop_store id s.stores })
    else s

-- The timer of a DELETE.
unfoldable pub delete_timeout : Text → Mailbox → Mailbox
unfolding has_delete drop_delete
delete_timeout id s =
    if has_delete id s.deletes
    then emit (resolved id (failed timeout)) (record s { deletes = drop_delete id s.deletes })
    else s

-- fetchMailbox; a send that throws takes the guard back, one that returns false does not.
unfoldable pub fetch_mailbox : Checks → Bool → Mailbox → Mailbox
fetch_mailbox t throws s =
    if not t.enabled || not t.has_mailbox || s.fetching || not t.connected
    then s
    else if throws
    then emit warned s
    else emit send_fetch (record s { fetching = true })

-- The answers of the mailbox. A delivery carries the inner frame, `none` for one that does not
-- parse, whether the page still has a mailbox, and whether the FETCH_NEXT that follows throws.
pub data Reply : Type 0 where
  is_stored is_too_big is_full is_deleted is_not_found is_empty : Reply
  delivery : Option Bytes → Bool → Bool → Reply

-- The oldest pending STORE resolves.
unfoldable pub answer_store : (Bytes → Outcome) → Mailbox → Mailbox
answer_store f s = elim s.stores [
  | [] ↦ s
  | e ∷ l ↦ emit (resolved e.0 (f e.1)) (record s { stores = l })
]

-- The oldest pending DELETE resolves.
unfoldable pub answer_delete : Outcome → Mailbox → Mailbox
answer_delete o s = elim s.deletes [
  | [] ↦ s
  | id ∷ l ↦ emit (resolved id o) (record s { deletes = l })
]

abbrev pub reinject : Option Bytes → Mailbox → Mailbox
reinject none s = emit warned s
reinject (some frame) s = emit (reinjected frame) s

-- onMailboxMessage
unfoldable pub on_mailbox_message : Reply → Mailbox → Mailbox
unfolding answer_store answer_delete
on_mailbox_message is_stored s = answer_store stored s
on_mailbox_message is_too_big s = answer_store (λ n. failed too_big) s
on_mailbox_message is_full s = answer_store (λ n. failed mailbox_full) s
on_mailbox_message is_deleted s = answer_delete deleted s
on_mailbox_message is_not_found s = answer_delete (failed not_found) s
on_mailbox_message is_empty s = record s { fetching = false }
on_mailbox_message (delivery frame has_mailbox throws) s =
    let s' = reinject frame s in
    if not has_mailbox
    then s'
    else if throws
    then emit warned (record s' { fetching = false })
    else emit send_fetch s'
