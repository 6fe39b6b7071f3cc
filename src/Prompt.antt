-- ===== src/Prompt.antt =====
-- The prompts of `web/app.js` that ring, and its call log: logCall, showIncoming, clearIncoming,
-- acceptIncomingCall, the two buttons, onIncomingCall, onMissedCall and onState of a call; the dialog
-- for an invitation to a group call, which plays the same ringtone, and onState of a group call; and
-- the roster that the dialog for participants builds.

pub mod Window
pub mod Roster
pub mod Tests
use tele.Prelude.{
  ℕ, ◌+◌, Bool, true, false, Option, none, some, List, [], ◌∷◌, ◌++◌, ltb, if◌then◌else◌, length,
}
use tele.Bytes.{Text}
use tele.Chat.{Counters, bump}
use tele.Keys.{Ban}
use tele.Book.{is_banned}

-- An entry of the call log without its time, name and note.
pub data LogEvent : Type 0 where
  incoming accepted declined missed dup ended : LogEvent

-- What the page asks of the two call managers.
pub data Asked : Type 0 where
  reject_incoming accept_incoming reject_invite accept_invite : Text → Asked
  hang_up : Asked

pub record Prompt : Type 0 where
  -- telefon_call_log
  pub log : List (LogEvent × Text)
  -- pendingIncoming
  pub pending : Option Text
  -- incomingTimer runs, and the dialog is shown
  pub timer : Bool
  pub dialog : Bool
  -- pendingGroupInvite, and its dialog is shown
  pub group_invite : Option Text
  pub group_dialog : Bool
  -- the one ringtone of both prompts plays
  pub ringing : Bool
  -- currentCallId
  pub in_call : Option Text
  pub auto_accept_until : ℕ
  pub blacklist : List Ban
  pub missed_calls : Counters
  -- the newest first
  pub asked : List Asked

-- `while (log.length > 80) log.shift()`
unfoldable pub shift_to : ℕ → List (LogEvent × Text) → List (LogEvent × Text)
shift_to n [] = []
shift_to n (e ∷ log) =
    let rest = shift_to n log in if ltb n (length (e ∷ log)) then rest else e ∷ log

-- logCall
unfoldable pub log_call : LogEvent → Text → Prompt → Prompt
unfolding shift_to
log_call ev id p = record p { log = shift_to 80 (p.log ++ ((ev, id) ∷ [])) }

-- clearIncoming
unfoldable pub clear_incoming : Prompt → Prompt
clear_incoming p = record p { timer = false; ringing = false; dialog = false; pending = none }

-- showIncoming
unfoldable pub show_incoming : Text → Prompt → Prompt
unfolding log_call
show_incoming id p = elim p.pending [
  | some other ↦ log_call dup id p
  | none ↦
      log_call incoming id
        (record p { pending = some id; dialog = true; ringing = true; timer = true })
]

-- The timeout of showIncoming.
unfoldable pub on_timeout : Prompt → Prompt
unfolding log_call clear_incoming
on_timeout p = elim p.pending [
  | none ↦ record p { timer = false }
  | some id ↦ clear_incoming (log_call missed id p)
]

-- acceptIncomingCall; `connected` is what ensureConnected returns.
unfoldable pub accept_incoming_call : Bool → Text → Prompt → Prompt
unfolding log_call clear_incoming
accept_incoming_call connected id p =
    let p' = clear_incoming (record (log_call accepted id p) { in_call = some id }) in
    record p' { asked = (if connected then accept_incoming id else hang_up) ∷ p'.asked }

-- The button `incoming-accept`.
unfoldable pub on_accept : Bool → Prompt → Prompt
unfolding accept_incoming_call
on_accept connected p = elim p.pending [ none ↦ p | some id ↦ accept_incoming_call connected id p ]

-- The button `incoming-reject`.
unfoldable pub on_reject : Prompt → Prompt
unfolding log_call clear_incoming
on_reject p = elim p.pending [
  | none ↦ p
  | some id ↦
      let p' = log_call declined id p in
      clear_incoming (record p' { asked = reject_incoming id ∷ p'.asked })
]

-- armAutoAccept
unfoldable pub arm_auto_accept : ℕ → Prompt → Prompt
arm_auto_accept now p = record p { auto_accept_until = now + 20000 }

-- onIncomingCall
unfoldable pub on_incoming_call : ℕ → Bool → Text → Prompt → Prompt
unfolding is_banned accept_incoming_call show_incoming
on_incoming_call now connected id p =
    if is_banned id p.blacklist
    then record p { asked = reject_incoming id ∷ p.asked }
    else if ltb now p.auto_accept_until
    then accept_incoming_call connected id (record p { auto_accept_until = 0 })
    else show_incoming id p

-- onMissedCall
unfoldable pub on_missed_call : Text → Prompt → Prompt
unfolding is_banned log_call bump
on_missed_call id p =
    if is_banned id p.blacklist
    then p
    else record (log_call missed id p) { missed_calls = bump id p.missed_calls }

-- onState when a call has ended.
unfoldable pub on_ended : Prompt → Prompt
unfolding clear_incoming log_call
on_ended p =
    let p' = clear_incoming p in
    elim p'.in_call [ none ↦ p' | some id ↦ record (log_call ended id p') { in_call = none } ]

-- onState when a call is connected.
unfoldable pub on_connected : Prompt → Prompt
on_connected p = record p { ringing = false }

-- showGroupInvite; the text of the dialog is output.
unfoldable pub show_group_invite : Text → Prompt → Prompt
show_group_invite room p = record p {
  group_invite = some room;
  group_dialog = true;
  ringing = true;
}

-- clearGroupInvite
unfoldable pub clear_group_invite : Prompt → Prompt
clear_group_invite p = record p { group_dialog = false; group_invite = none; ringing = false }

-- The button `group-invite-accept`.
unfoldable pub on_invite_accept : Prompt → Prompt
unfolding clear_group_invite
on_invite_accept p = elim p.group_invite [
  | none ↦ p
  | some room ↦ let p' = clear_group_invite p in record p' { asked = accept_invite room ∷ p'.asked }
]

-- The button `group-invite-reject`.
unfoldable pub on_invite_reject : Prompt → Prompt
unfolding clear_group_invite
on_invite_reject p = elim p.group_invite [
  | none ↦ p
  | some room ↦ clear_group_invite (record p { asked = reject_invite room ∷ p.asked })
]

-- onState of a group call that is active or has ended.
unfoldable pub on_group_state : Prompt → Prompt
on_group_state p = record p { ringing = false }
