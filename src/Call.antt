-- ===== src/Call.antt =====
-- Calls of two people: class CallManager of `web/webrtc.js`; its media controls are Call.Media. A
-- method is a function on the state; what it does to the network and the page is recorded in `out`.
-- The wait for the camera is an event of its own, so anything may happen during it. The other waits
-- of a handler run to their end; whether the browser takes a description is an argument.
pub mod Step
pub mod Media
pub mod Ring
pub mod Answered
pub mod Signals
pub mod Tests
use tele.Prelude.{
  ℕ, ◌+◌, Bool, true, false, ◌&&◌, ◌||◌, Option, none, some, List, [], ◌∷◌, ◌++◌, leb,
  if◌then◌else◌, ◌===◌,
}
use tele.Bytes.{Text, Bytes, hex_of, hex_to_bytes}
use tele.Wire.Codes.{
  call_request, call_accept, call_reject, call_hangup, call_sdp_offer, call_sdp_answer, call_missed,
}

-- RING_TIMEOUT_MS
abbrev pub ring_timeout_ms : ℕ
ring_timeout_ms = 40000

-- `signalingState` of the connection, and whether it has a remote description.
pub data Signaling : Type 0 where
  stable have_local_offer : Signaling

pub record Pc : Type 0 where
  pub signaling : Signaling
  pub has_remote : Bool

pub record Ringing : Type 0 where
  pub callee : Bytes
  pub since : ℕ

-- What goes on when the camera is open: nothing after `call` and acceptIncoming, else the rest of
-- _initiate or of _onOffer. The Boolean says whether the browser will take the offer.
pub data Waiting : Type 0 where
  preview : Waiting
  to_initiate : Bytes → Waiting
  to_answer : Bytes → Bool → Waiting

pub data CallState : Type 0 where
  calling connecting hung_up rejected peer_hung_up : CallState

pub data Effect : Type 0 where
  -- a frame without a body
  send : Bytes → ℕ → Effect
  -- a frame with a description
  send_sdp : Bytes → ℕ → Effect
  add_candidate : Text → Effect
  on_state : CallState → Effect
  on_incoming_call on_missed_call : Bytes → Effect
  local_stream : Bool → Effect
  no_remote_stream log_line : Effect

pub record Call : Type 0 where
  pub pc : Option Pc
  pub peer_id : Option Bytes
  pub pending_candidates : List Text
  pub streaming : Bool
  pub ringing : Option Ringing
  -- the ring timer runs
  pub ring_timer : Bool
  -- _owedMissed
  pub owed_missed : List Text
  pub waiting : List Waiting
  -- the newest effect first
  pub out : List Effect

abbrev pub new_call : Call
new_call = record {
  pc = none;
  peer_id = none;
  pending_candidates = [];
  streaming = false;
  ringing = none;
  ring_timer = false;
  owed_missed = [];
  waiting = [];
  out = [];
}

abbrev pub emit : Effect → Call → Call
emit e c = record c { out = e ∷ c.out }

unfoldable pub is_owed : Text → List Text → Bool
is_owed k [] = false
is_owed k (j ∷ ks) = j === k || is_owed k ks

-- `_owedMissed.add`
abbrev pub owe : Text → List Text → List Text
owe k ks = if is_owed k ks then ks else k ∷ ks

-- `_owedMissed.delete`
unfoldable pub settle : Text → List Text → List Text
settle k [] = []
settle k (j ∷ ks) = let rest = settle k ks in if j === k then rest else j ∷ rest

-- _clearRing
abbrev pub clear_ring : Call → Call
clear_ring c = record c { ringing = none; ring_timer = false }

-- _tearDown
unfoldable pub tear_down : CallState → Call → Call
tear_down reason c = emit (on_state reason) (
    emit no_remote_stream (
      emit (local_stream false) (record (clear_ring c) {
        pc = none;
        streaming = false;
        peer_id = none;
        pending_candidates = [];
      })))

-- The loop over pendingCandidates.
unfoldable pub add_all : List Text → Call → Call
add_all [] c = c
add_all (x ∷ xs) c = add_all xs (emit (add_candidate x) c)

-- `throws` tells the peers that the session has no keys for, for which `_sendPeer` throws.
module _ (throws : Bytes → Bool) where
  -- A send under try, which logs the exception.
  abbrev pub try_send : Bytes → ℕ → Call → Call
  try_send p cmd c = if throws p then emit log_line c else emit (send p cmd) c

  -- _markMissed
  unfoldable pub mark_missed : Bytes → Call → Call
  unfolding is_owed
  mark_missed p c = try_send p call_missed (record c { owed_missed = owe (hex_of p) c.owed_missed })

  -- _initiate and _onOffer from the point where the camera is open; a send that throws ends the
  -- handler.
  unfoldable pub resume : Waiting → Call → Call
  unfolding add_all
  resume preview c = c
  resume (to_initiate p) c =
      let c' = record c {
        pc = some (record { signaling = have_local_offer; has_remote = false });
      } in
      if throws p then c' else emit (on_state connecting) (emit (send_sdp p call_sdp_offer) c')
  resume (to_answer p false) c = record c {
    pc = some (record { signaling = stable; has_remote = false });
  }
  resume (to_answer p true) c =
      let c' = add_all c.pending_candidates (record c {
        pc = some (record { signaling = stable; has_remote = true });
        pending_candidates = [];
      }) in
      if throws p then c' else emit (on_state connecting) (emit (send_sdp p call_sdp_answer) c')

  -- _openMedia up to its wait; an open stream is used at once.
  unfoldable pub open_media : Waiting → Call → Call
  unfolding resume
  open_media w c = if c.streaming then resume w c else record c { waiting = c.waiting ++ (w ∷ []) }

  -- The camera is granted or refused to the first that waits for it.
  unfoldable pub media_result : Bool → Call → Call
  unfolding resume
  media_result ok c = elim c.waiting [
    | [] ↦ c
    | w ∷ ws ↦
        let c' = record c { waiting = ws } in
        if ok
        then resume w (emit (local_stream true) (record c' { streaming = true }))
        else emit log_line c'
  ]

  -- call
  unfoldable pub place_call : ℕ → Bytes → Call → Call
  unfolding open_media
  place_call now p c =
      let c' = emit (on_state calling) (record c {
        peer_id = some p;
        ringing = some (record { callee = p; since = now });
        ring_timer = true;
      }) in
      if throws p then c' else open_media preview (emit (send p call_request) c')

  -- `if (wasRinging) this._markMissed(wasRinging)`
  abbrev pub mark_ringing : Option Ringing → Call → Call
  mark_ringing none c = c
  mark_ringing (some r) c = mark_missed r.callee c

  -- hangup
  unfoldable pub hangup : Call → Call
  unfolding mark_missed tear_down
  hangup c =
      let c' = mark_ringing c.ringing (clear_ring c) in
      elim c.peer_id [
        | none ↦ tear_down hung_up c'
        | some p ↦ if throws p then c' else tear_down hung_up (emit (send p call_hangup) c')
      ]

  -- The callback of the ring timer.
  unfoldable pub on_ring_timeout : Call → Call
  unfolding mark_missed hangup
  on_ring_timeout c =
      let c' = record c { ring_timer = false } in
      elim c.ringing [ none ↦ c' | some r ↦ hangup (mark_missed r.callee (emit log_line c')) ]

  abbrev pub is_ringing_for : ℕ → Text → Option Ringing → Bool
  is_ringing_for now id_hex none = false
  is_ringing_for now id_hex (some r) =
      leb now (r.since + ring_timeout_ms) && hex_of r.callee === id_hex

  -- What onPeerOnline does for a peer that is not being rung.
  unfoldable pub deliver_owed : Text → Call → Call
  unfolding is_owed settle
  deliver_owed id_hex c =
      if is_owed id_hex c.owed_missed
      then try_send (hex_to_bytes id_hex) call_missed
          (record c { owed_missed = settle id_hex c.owed_missed })
      else c

  -- onPeerOnline
  unfoldable pub on_peer_online : ℕ → Text → Call → Call
  unfolding deliver_owed
  on_peer_online now id_hex c = elim c.ringing [
    | none ↦ deliver_owed id_hex c
    | some r ↦
        if is_ringing_for now id_hex (some r)
        then try_send r.callee call_request c
        else deliver_owed id_hex c
  ]

  -- acceptIncoming
  unfoldable pub accept_incoming : Bytes → Call → Call
  unfolding open_media
  accept_incoming p c =
      let c' = record c { peer_id = some p } in
      if throws p then c' else open_media preview (emit (send p call_accept) c')

  -- rejectIncoming
  abbrev pub reject_incoming : Bytes → Call → Call
  reject_incoming p c = if throws p then c else emit (send p call_reject) c
