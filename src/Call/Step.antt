-- ===== src/Call/Step.antt =====
-- What can happen to the CallManager of `web/webrtc.js`: the frames of peers, the page's calls, the
-- ring timer, presence and the camera.
use tele.Prelude.{ℕ, Bool, true, false, Option, none, some, List, [], ◌∷◌, ◌++◌, if◌then◌else◌}
use tele.Bytes.{Text, Bytes}
use tele.Call.{
  stable, have_local_offer, Pc, to_initiate, to_answer, rejected, peer_hung_up, add_candidate,
  on_incoming_call, on_missed_call, log_line, Call, emit, clear_ring, tear_down, add_all,
  open_media, media_result, place_call, hangup, on_ring_timeout, on_peer_online, accept_incoming,
  reject_incoming,
}

-- The call frames that `_onPeerMessage` reads. The Boolean says whether the browser takes the
-- description; a candidate is `none` where the payload has none.
pub data Signal : Type 0 where
  missed request accept reject hang_up : Signal
  offer answer : Bool → Signal
  candidate : Option Text → Signal

abbrev pub is_expecting : Option Pc → Bool
is_expecting none = false
is_expecting (some pc) = elim pc.signaling [ have_local_offer ↦ true | stable ↦ false ]

abbrev pub is_ready : Option Pc → Bool
is_ready none = false
is_ready (some pc) = pc.has_remote

-- _onAnswer
unfoldable pub on_answer : Bool → Call → Call
unfolding add_all
on_answer ok c =
    if is_expecting c.pc
    then (if ok
        then add_all c.pending_candidates (record c {
          pc = some (record { signaling = stable; has_remote = true });
          pending_candidates = [];
        })
        else emit log_line c)
    else elim c.pc [ none ↦ c | some pc ↦ emit log_line c ]

-- _onCandidate
unfoldable pub on_candidate : Option Text → Call → Call
on_candidate none c = c
on_candidate (some x) c =
    if is_ready c.pc
    then emit (add_candidate x) c
    else record c { pending_candidates = c.pending_candidates ++ (x ∷ []) }

pub data Op : Type 0 where
  -- the page's
  placed : ℕ → Bytes → Op
  ended : Op
  accepted declined : Bytes → Op
  -- the browser's
  camera : Bool → Op
  ring_timed_out : Op
  -- the server's
  came_online : ℕ → Text → Op
  peer_sent : Bytes → Signal → Op

module _ (throws : Bytes → Bool) where
  -- The part of _onPeerMessage that deals with calls.
  unfoldable pub on_signal : Bytes → Signal → Call → Call
  unfolding open_media on_answer on_candidate tear_down
  on_signal p missed c = emit (on_missed_call p) c
  on_signal p request c = emit (on_incoming_call p) c
  on_signal p accept c =
      open_media throws (to_initiate p) (record (clear_ring c) { peer_id = some p })
  on_signal p reject c = tear_down rejected (clear_ring (emit log_line c))
  on_signal p hang_up c = tear_down peer_hung_up (emit log_line c)
  on_signal p (offer ok) c = open_media throws (to_answer p ok) (record c { peer_id = some p })
  on_signal p (answer ok) c = on_answer ok c
  on_signal p (candidate x) c = on_candidate x c

  -- The timer cannot fire when it does not run.
  unfoldable pub apply : Op → Call → Call
  unfolding on_signal
  apply (placed now p) c = place_call throws now p c
  apply ended c = hangup throws c
  apply (accepted p) c = accept_incoming throws p c
  apply (declined p) c = reject_incoming throws p c
  apply (camera ok) c = media_result throws ok c
  apply ring_timed_out c = if c.ring_timer then on_ring_timeout throws c else c
  apply (came_online now k) c = on_peer_online throws now k c
  apply (peer_sent p s) c = on_signal p s c

  unfoldable pub apply_all : List Op → Call → Call
  unfolding apply
  apply_all [] c = c
  apply_all (o ∷ os) c = apply_all os (apply o c)
