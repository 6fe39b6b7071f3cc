-- ===== src/Book.antt =====
-- The address book of `web/app.js`: peerBook and its copy in localStorage, introductions, presence,
-- and the blacklist. The session of the WASM module, `toLowerCase` and the UTF-8 decoder are
-- arguments; ids are object keys, no names of array indices.
pub mod Server
pub mod Bans
pub mod Presence
pub mod Reload
pub mod Unban
pub mod Tests
use tele.Prelude.{
  Bool, false, ◌||◌, Option, none, some, List, [], ◌∷◌, ◌++◌, if◌then◌else◌, ◌===◌, take,
}
use tele.Bytes.{Text, Bytes, hex_of, hex_u8}
use tele.Table.{Table, lookup, delete}
use tele.Storage.{Store, clear_history}
use tele.Storage.Rows.{trim}
use tele.Chat.{Counters, clear}
use tele.Keys.{Contact, Ban, Local, or_null, save_peers, set}
use tele.Keys.Qr.{qr_xpub_bytes}

-- An entry of peerBook; `type` is none for a person.
pub record Peer : Type 0 where
  pub qr : Text
  pub label : Option Text
  pub type : Option Text
  pub online : Bool

-- What the book does to the connection, the session, the calls and the page.
pub data Effect : Type 0 where
  subscribed : List Bytes → Effect
  wake_sent : Bytes → Bool → Effect
  peer_added : Text → Effect
  peer_removed : Bytes → Effect
  introduced : Bytes → Effect
  outbox_flushed re_rung added_you : Text → Effect
  hung_up : Effect

pub record Book : Type 0 where
  pub peers : Table Peer
  pub blacklist : List Ban
  -- telefon_banned
  pub saved_bans : List Ban
  pub local : Local
  pub store : Store
  pub unread : Counters
  pub missed : Counters
  -- currentPeerId
  pub current : Option Text
  -- the newest first
  pub effects : List Effect

abbrev pub emit : Effect → Book → Book
emit e b = record b { effects = e ∷ b.effects }

-- The copy of persist: the code and the label of each entry.
unfoldable pub stripped : Table Peer → Table Contact
stripped [] = []
stripped ((id, p) ∷ t) = (id, record { qr = p.qr; label = p.label; type = none }) ∷ stripped t

-- persist
unfoldable pub persist : Book → Book
unfolding stripped save_peers
persist b = record b { local = save_peers (stripped b.peers) b.local }

-- The initial peerBook: what is stored, with everybody offline.
unfoldable pub loaded : Table Contact → Table Peer
loaded [] = []
loaded ((id, c) ∷ t) =
    (id, record { qr = c.qr; label = c.label; type = c.type; online = false }) ∷ loaded t

unfoldable pub xpubs_of : Table Peer → List Bytes
unfolding qr_xpub_bytes
xpubs_of [] = []
xpubs_of ((id, p) ∷ t) =
    let rest = xpubs_of t in elim (qr_xpub_bytes p.qr) [ none ↦ rest | some x ↦ x ∷ rest ]

-- subscribeAll
unfoldable pub subscribe_all : Book → Book
unfolding xpubs_of
subscribe_all b = elim (xpubs_of b.peers) [ [] ↦ b | x ∷ xs ↦ emit (subscribed (x ∷ xs)) b ]

-- isBanned: `blacklist.some(e => e.id === idHex)`
unfoldable pub is_banned : Text → List Ban → Bool
is_banned id [] = false
is_banned id (e ∷ bans) = e.id === id || is_banned id bans

-- `blacklist.find(e => e.id === idHex)`
unfoldable pub find_ban : Text → List Ban → Option Ban
find_ban id [] = none
find_ban id (e ∷ bans) = if e.id === id then some e else find_ban id bans

-- `blacklist.filter(e => e.id !== idHex)`
unfoldable pub without_ban : Text → List Ban → List Ban
without_ban id [] = []
without_ban id (e ∷ bans) = let rest = without_ban id bans in if e.id === id then rest else e ∷ rest

-- What leaves with a contact that is deleted or banned: chat, badges and session.
unfoldable pub forget : Text → Book → Book
unfolding clear_history clear hex_u8
forget id b = emit (peer_removed (hex_u8 id)) (record b {
  store = (clear_history id b.store).1;
  unread = clear id b.unread;
  missed = clear id b.missed;
})

-- The chat on screen, if it is that of the contact.
abbrev pub leave_chat : Text → Book → Book
leave_chat id b = elim b.current [
  | none ↦ b
  | some c ↦ if c === id then emit hung_up (record b { current = none }) else b
]

-- The entry of a new ban: `{ id, qr: p?.qr || null, label: p?.label || null }`
unfoldable pub ban_of : Text → Option Peer → Ban
ban_of id none = record { id = id; qr = none; label = none }
ban_of id (some p) = record { id = id; qr = or_null (some p.qr); label = or_null p.label }

-- The blacklist of banContact.
unfoldable pub with_ban : Text → Option Peer → List Ban → List Ban
unfolding is_banned ban_of
with_ban id p bans = if is_banned id bans then bans else bans ++ (ban_of id p ∷ [])

-- banContact, confirmed.
unfoldable pub ban_contact : Text → Book → Book
unfolding with_ban is_banned forget persist
ban_contact id b =
    let bans = with_ban id (lookup id b.peers) b.blacklist in
    let saved = if is_banned id b.blacklist then b.saved_bans else bans in
    let b' = forget id (record b { blacklist = bans; saved_bans = saved }) in
    leave_chat id (persist (record b' { peers = delete id b'.peers }))

-- The part of unbanContact for an entry that has a code.
unfoldable pub restore_contact : Text → Option Ban → Book → Book
unfolding set persist subscribe_all
restore_contact id none b = b
restore_contact id (some e) b = elim (or_null e.qr) [
  | none ↦ b
  | some qr ↦
      let p : Peer = record { qr = qr; label = or_null e.label; type = none; online = false } in
      subscribe_all (persist (emit (peer_added qr) (record b { peers = set id p b.peers })))
]

-- unbanContact
unfoldable pub unban_contact : Text → Book → Book
unfolding find_ban without_ban restore_contact
unban_contact id b =
    let bans = without_ban id b.blacklist in
    restore_contact id (find_ban id b.blacklist) (record b { blacklist = bans; saved_bans = bans })

-- openDeleteContactDialog, confirmed.
unfoldable pub delete_contact : Text → Book → Book
unfolding persist forget
delete_contact id b = elim (lookup id b.peers) [
  | none ↦ b
  | some p ↦ leave_chat id (forget id (persist (record b { peers = delete id b.peers })))
]

-- openRenameDialog, saved with a value of the input.
unfoldable pub rename_contact : Text → Text → Book → Book
unfolding trim set persist
rename_contact id value b = elim (lookup id b.peers) [
  | none ↦ b
  | some p ↦
      persist
        (record b { peers = set id (record p { label = or_null (some (trim value)) }) b.peers })
]

-- maybeWake, for an id that is not empty.
unfoldable pub maybe_wake : Text → Bool → Book → Book
unfolding hex_u8
maybe_wake id is_call b = elim (lookup id b.peers) [
  | none ↦ emit (wake_sent (hex_u8 id) is_call) b
  | some p ↦ if p.online then b else emit (wake_sent (hex_u8 id) is_call) b
]

-- setOnline
unfoldable pub set_online : Bytes → Bool → Book → Book
unfolding hex_of set
set_online x_pub online b =
    let id = hex_of (take 8 x_pub) in
    elim (lookup id b.peers) [
      | none ↦ b
      | some p ↦ record b { peers = set id (record p { online = online }) b.peers }
    ]
