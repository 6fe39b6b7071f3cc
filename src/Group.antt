-- ===== src/Group.antt =====
-- Group calls over a mesh: class GroupCallManager of `web/group_call.js`. A method is a function on
-- the state; what it does to the network and the page is recorded in `out`.
-- The wait for the camera is an event of its own, so anything may happen during it. The handlers of
-- a peer connection run to their end; whether the browser takes a description is an argument.
pub mod Calls
pub mod Peers
pub mod Step
pub mod Members
pub mod Size
pub mod Mesh
pub mod Teardown
pub mod Media
pub mod Tests
use tele.Prelude.{
  ℕ, suc, Bool, true, false, ◌||◌, Option, none, some, List, [], ◌∷◌, ◌++◌, if◌then◌else◌, ◌===◌,
}
use tele.Bytes.{Text, Bytes}

abbrev pub max_members : ℕ
max_members = 5

-- `signalingState` of a connection, and whether it has a remote description.
pub data Signaling : Type 0 where
  stable have_local_offer : Signaling

pub record Pc : Type 0 where
  pub signaling : Signaling
  pub has_remote : Bool

pub record Member : Type 0 where
  pub id : Bytes
  pub id_hex : Text
  pub qr : Text
  pub label : Text
  pub active : Bool
  pub pc : Option Pc
  pub pending_ice : List Text

pub record Entry : Type 0 where
  pub id : Text
  pub qr : Text
  pub label : Text

pub record Invite : Type 0 where
  pub room : Text
  pub roster : List Entry
  pub host_hex : Text

-- Who waits for the camera.
pub data Waiting : Type 0 where
  host_waits : List Entry → Waiting
  guest_waits : Waiting

pub data Effect : Type 0 where
  send_invite : Bytes → Option Text → List Entry → Effect
  send_room : Bytes → ℕ → Option Text → Effect
  send_sdp : Bytes → ℕ → Option Text → Effect
  on_invite_shown : Text → Effect
  participant_join participant_leave : Text → Effect
  add_candidate : Text → Text → Effect
  local_stream : Bool → Effect
  state_active state_ended log_line : Effect

pub record Group : Type 0 where
  pub room : Option Text
  pub members : List Member
  -- the local stream is open
  pub streaming : Bool
  pub pending_invite : Option Invite
  pub waiting : List Waiting
  -- the newest effect first
  pub out : List Effect

abbrev pub new_group : Group
new_group = record {
  room = none;
  members = [];
  streaming = false;
  pending_invite = none;
  waiting = [];
  out = [];
}

abbrev pub emit : Effect → Group → Group
emit e g = record g { out = e ∷ g.out }

abbrev pub is_in_call : Group → Bool
is_in_call g = elim g.room [ none ↦ false | some r ↦ true ]

-- participantCount
unfoldable pub count_active : List Member → ℕ
count_active [] = 0
count_active (m ∷ ms) = let n = count_active ms in if m.active then suc n else n

abbrev pub participant_count : Group → ℕ
participant_count g = count_active g.members

unfoldable pub has_member : Text → List Member → Bool
has_member k [] = false
has_member k (m ∷ ms) = m.id_hex === k || has_member k ms

unfoldable pub find_member : Text → List Member → Option Member
find_member k [] = none
find_member k (m ∷ ms) = if m.id_hex === k then some m else find_member k ms

-- A write to the member object that the map holds under a key.
unfoldable pub set_member : Member → List Member → List Member
set_member m [] = []
set_member m (n ∷ ms) =
    let rest = set_member m ms in if n.id_hex === m.id_hex then m ∷ ms else n ∷ rest

abbrev pub with_member : Member → Group → Group
with_member m g = record g { members = set_member m g.members }

abbrev pub fresh_member : Bytes → Text → Entry → Bool → Member
fresh_member id id_hex r active = record {
  id = id;
  id_hex = id_hex;
  qr = r.qr;
  label = r.label;
  active = active;
  pc = none;
  pending_ice = [];
}

-- `if (!members.has(k)) members.set(k, …)`
abbrev pub add_member : Member → List Member → List Member
add_member m ms = if has_member m.id_hex ms then ms else ms ++ (m ∷ [])

-- The connection waits for an answer.
abbrev pub is_expecting : Option Pc → Bool
is_expecting none = false
is_expecting (some pc) = elim pc.signaling [ have_local_offer ↦ true | stable ↦ false ]

-- The connection has a remote description.
abbrev pub is_ready : Option Pc → Bool
is_ready none = false
is_ready (some pc) = pc.has_remote

-- A parsed payload of each command; `none` for an ICE payload without a candidate.
pub data Payload : Type 0 where
  invite : Text → List Entry → Payload
  join bye : Text → Payload
  offer answer : Text → Bool → Payload
  ice : Text → Option Text → Payload

abbrev pub room_of : Payload → Text
room_of (invite r roster) = r
room_of (join r) = r
room_of (bye r) = r
room_of (offer r ok) = r
room_of (answer r ok) = r
room_of (ice r c) = r
