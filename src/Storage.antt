-- ===== src/Storage.antt =====
-- The chat storage of `web/storage.js`: the tables `messages`, `outbox` and `files`, and the save
-- counter. A read or write of the database is atomic; `crypto.randomUUID` and `Date.now` are
-- arguments.
pub mod Rows
pub mod History
pub mod Windows
pub mod Flush
pub mod Outbox
pub mod Lifecycle
pub mod Clear
pub mod Tests
use tele.Prelude.{
  ℕ, ◌+◌, Bool, true, false, Option, none, some, [], ◌∷◌, ◌==◌, if◌then◌else◌, ◌===◌, length, drop,
}
use tele.Bytes.{Text, Bytes}
use tele.Table.{Table, lookup, put, delete, select}

pub data Dir : Type 0 where
  incoming outgoing : Dir

pub data Status : Type 0 where
  pending sent delivered read received : Status

pub record Message : Type 0 where
  pub peer_id : Text
  pub dir : Dir
  pub body : Text
  pub ts : ℕ
  -- `seq || 0`: 0 stands for a row without the field
  pub seq : ℕ
  pub status : Status
  pub edited : Bool

pub record OutboxEntry : Type 0 where
  pub attempts : ℕ
  pub last_try_ts : ℕ
  pub mailbox_nonce : Option Bytes

pub record FileRow : Type 0 where
  pub mime : Text
  pub name : Text
  pub size : ℕ
  pub blob : Option Bytes
  pub thumb_blob : Option Bytes

pub record Store : Type 0 where
  pub messages : Table Message
  pub outbox : Table OutboxEntry
  pub files : Table FileRow
  pub seq : ℕ

abbrev pub empty_store : Store
empty_store = record { messages = []; outbox = []; files = []; seq = 0 }

abbrev pub is_outgoing : Dir → Bool
is_outgoing outgoing = true
is_outgoing incoming = false

abbrev pub is_final : Status → Bool
is_final delivered = true
is_final read = true
is_final _ = false

-- isFileRef
unfoldable pub is_file_ref : Text → Bool
is_file_ref [] = false
is_file_ref (c ∷ body) = c == b'%'

-- fileIdOf
unfoldable pub file_id_of : Text → Option Text
unfolding is_file_ref
file_id_of body = if is_file_ref body then some (drop 1 body) else none

-- saveOutgoing, with the id that it returns
unfoldable pub save_outgoing : Text → ℕ → Text → Text → Store → Store
save_outgoing id now peer_id body s =
    let seq = s.seq + 1 in
    let m : Message = record {
      peer_id = peer_id;
      dir = outgoing;
      body = body;
      ts = now;
      seq = seq;
      status = pending;
      edited = false;
    } in
    let q : OutboxEntry = record { attempts = 0; last_try_ts = 0; mailbox_nonce = none } in
    record s { messages = put id m s.messages; outbox = put id q s.outbox; seq = seq }

-- saveIncoming. A `ts` of 0 is replaced by the clock.
unfoldable pub save_incoming : Text → Text → Text → ℕ → ℕ → Store → Bool × Store
save_incoming peer_id id body ts now s = elim (lookup id s.messages) [
  | some existing ↦ (false, s)
  | none ↦
      let m : Message = record {
        peer_id = peer_id;
        dir = incoming;
        body = body;
        ts = if ts == 0 then now else ts;
        seq = s.seq + 1;
        status = received;
        edited = false;
      } in
      (true, record s { messages = put id m s.messages; seq = s.seq + 1 })
]

-- markStatus
unfoldable pub mark_status : Text → Status → Store → Store
mark_status id status s = elim (lookup id s.messages) [
  | none ↦ s
  | some m ↦
      let s' = record s { messages = put id (record m { status = status }) s.messages } in
      if is_final status then record s' { outbox = delete id s.outbox } else s'
]

-- bumpAttempt
unfoldable pub bump_attempt : Text → ℕ → Store → Store
bump_attempt id now s = elim (lookup id s.outbox) [
  | none ↦ s
  | some q ↦
      let q' = record q { attempts = q.attempts + 1; last_try_ts = now } in
      record s { outbox = put id q' s.outbox }
]

-- setMailboxNonce
unfoldable pub set_mailbox_nonce : Text → Bytes → Store → Store
set_mailbox_nonce id nonce s = elim (lookup id s.outbox) [
  | none ↦ s
  | some q ↦ record s { outbox = put id (record q { mailbox_nonce = some nonce }) s.outbox }
]

-- getMailboxNonce
unfoldable pub get_mailbox_nonce : Text → Store → Option Bytes
get_mailbox_nonce id s = elim (lookup id s.outbox) [ none ↦ none | some q ↦ q.mailbox_nonce ]

-- The blob of a file reference.
abbrev delete_file : Text → Table FileRow → Table FileRow
delete_file body files = elim (file_id_of body) [ none ↦ files | some f ↦ delete f files ]

-- deleteMessage
unfoldable pub delete_message : Text → Store → Store
unfolding file_id_of
delete_message id s = elim (lookup id s.messages) [
  | none ↦ s
  | some m ↦ record s {
    files = delete_file m.body s.files;
    messages = delete id s.messages;
    outbox = delete id s.outbox;
  }
]

-- editMessage
unfoldable pub edit_message : Text → Text → Store → Bool × Store
unfolding is_file_ref
edit_message id new_body s = elim (lookup id s.messages) [
  | none ↦ (false, s)
  | some m ↦ if is_file_ref m.body then (false, s) else (
    true,
    record s { messages = put id (record m { body = new_body; edited = true }) s.messages },
  )
]

-- The loop of clearHistory over the rows of the peer.
unfoldable pub clear_rows : Table Message → Store → Store
unfolding file_id_of
clear_rows [] s = s
clear_rows ((id, m) ∷ rows) s = clear_rows rows (record s {
  files = delete_file m.body s.files;
  messages = delete id s.messages;
  outbox = delete id s.outbox;
})

abbrev pub of_peer : Text → Text → Message → Bool
of_peer peer_id id m = m.peer_id === peer_id

-- clearHistory
unfoldable pub clear_history : Text → Store → ℕ × Store
unfolding clear_rows
clear_history peer_id s =
    let rows = select (of_peer peer_id) s.messages in (length rows, clear_rows rows s)

-- wipe; the save counter is in localStorage and stays.
unfoldable pub wipe : Store → Store
wipe s = record s { messages = []; outbox = []; files = [] }

-- saveFileMeta
unfoldable pub save_file_meta : Text → FileRow → Store → Store
save_file_meta id meta s = record s { files = put id (record meta { blob = none }) s.files }

-- saveFileBlob
unfoldable pub save_file_blob : Text → Bytes → Store → Store
save_file_blob id blob s = elim (lookup id s.files) [
  | none ↦ s
  | some f ↦ record s { files = put id (record f { blob = some blob }) s.files }
]

-- getFile
unfoldable pub get_file : Text → Store → Option FileRow
get_file id s = lookup id s.files
