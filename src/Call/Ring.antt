-- ===== src/Call/Ring.antt =====
-- Ringing and missed-call notices of `web/webrtc.js`.
use tele.Prelude.{
  ℕ, ◌≡◌, refl, Bool, true, false, Option, none, some, List, [], ◌∷◌, arith, ===_refl,
}
use tele.Bytes.{Text, Bytes, hex_of, hex_to_bytes}
use tele.Wire.Codes.{call_hangup, call_missed}
use tele.Call.{
  Ringing, Waiting, preview, to_initiate, to_answer, hung_up, send, add_candidate, on_state,
  local_stream, no_remote_stream, log_line, Call, new_call, emit, is_owed, owe, settle, tear_down,
  add_all, mark_missed, resume, open_media, media_result, place_call, hangup, on_ring_timeout,
  deliver_owed, on_peer_online, accept_incoming,
}
use tele.Call.Step.{
  Signal, missed, request, accept, reject, hang_up, offer, answer, candidate, on_answer,
  on_candidate, Op, placed, ended, accepted, declined, camera, ring_timed_out, came_online,
  peer_sent, on_signal, apply, apply_all,
}

abbrev is_some {ℓ} : {A : Type ℓ} → Option A → Bool
is_some none = false
is_some (some a) = true

-- The timer runs exactly while a call rings, and then there is a peer to hang up on.
pub record Inv (c : Call) : Type 0 where
  pub timed : c.ring_timer ≡ is_some c.ringing
  pub current : is_some c.ringing ≡ true → is_some c.peer_id ≡ true

-- What the camera and the candidates leave alone.
pub record Same (c d : Call) : Type 0 where
  pub same_ringing : d.ringing ≡ c.ringing
  pub same_timer : d.ring_timer ≡ c.ring_timer
  pub same_peer : d.peer_id ≡ c.peer_id
  pub same_owed : d.owed_missed ≡ c.owed_missed

add_all-Same : (xs : List Text) (c : Call) → Same c (add_all xs c)
unfolding add_all
add_all-Same [] c = ground arith
add_all-Same (x ∷ xs) c = ground (arith, add_all-Same xs (emit (add_candidate x) c))

pub on_answer-Same : (ok : Bool) (c : Call) → Same c (on_answer ok c)
unfolding on_answer
on_answer-Same ok c = grind (arith, add_all-Same)

pub on_candidate-Same : (x : Option Text) (c : Call) → Same c (on_candidate x c)
unfolding on_candidate
on_candidate-Same none c = ground arith
on_candidate-Same (some x) c = ground arith

module _ (throws : Bytes → Bool) where
  resume-Same : (w : Waiting) (c : Call) → Same c (resume throws w c)
  unfolding resume
  resume-Same preview c = ground arith
  resume-Same (to_initiate p) c = ground arith
  resume-Same (to_answer p false) c = ground arith
  resume-Same (to_answer p true) c = grind (arith, add_all-Same)

  pub open_media-Same : (w : Waiting) (c : Call) → Same c (open_media throws w c)
  unfolding open_media
  open_media-Same w c = ground (arith, resume-Same w c)

  pub media_result-Same : (ok : Bool) (c : Call) → Same c (media_result throws ok c)
  unfolding media_result
  media_result-Same ok c = grind (arith, resume-Same)

  place_call-Inv : (now : ℕ) (p : Bytes) (c : Call) → Inv (place_call throws now p c)
  unfolding place_call
  place_call-Inv now p c = grind (arith, open_media-Same)

  mark_missed-Inv : (p : Bytes) (c : Call) → Inv c → Inv (mark_missed throws p c)
  unfolding mark_missed
  mark_missed-Inv p c i = ground arith

  hangup-Inv : (c : Call) → Inv (hangup throws c)
  unfolding hangup mark_missed tear_down
  hangup-Inv c = ground arith

  on_ring_timeout-Inv : (c : Call) → Inv (on_ring_timeout throws c)
  unfolding on_ring_timeout
  on_ring_timeout-Inv c = grind (arith, hangup-Inv)

  on_peer_online-Inv : (now : ℕ) (k : Text) (c : Call) → Inv c → Inv (on_peer_online throws now k c)
  unfolding on_peer_online deliver_owed
  on_peer_online-Inv now k c i = ground arith

  accept_incoming-Inv : (p : Bytes) (c : Call) → Inv c → Inv (accept_incoming throws p c)
  unfolding accept_incoming
  accept_incoming-Inv p c i = grind (arith, open_media-Same)

  on_signal-Inv : (p : Bytes) (s : Signal) (c : Call) → Inv c → Inv (on_signal throws p s c)
  unfolding on_signal tear_down
  on_signal-Inv p missed c i = ground arith
  on_signal-Inv p request c i = ground arith
  on_signal-Inv p accept c i = grind (arith, open_media-Same)
  on_signal-Inv p reject c i = ground arith
  on_signal-Inv p hang_up c i = ground arith
  on_signal-Inv p (offer ok) c i =
      let c' : Call = record c { peer_id = some p } in
      ground (arith, open_media-Same (to_answer p ok) c')
  on_signal-Inv p (answer ok) c i = ground (arith, on_answer-Same ok c)
  on_signal-Inv p (candidate x) c i = ground (arith, on_candidate-Same x c)

  apply-Inv : (o : Op) (c : Call) → Inv c → Inv (apply throws o c)
  unfolding apply
  apply-Inv (placed now p) c i = place_call-Inv now p c
  apply-Inv ended c i = hangup-Inv c
  apply-Inv (accepted p) c i = accept_incoming-Inv p c i
  apply-Inv (declined p) c i = ground arith
  apply-Inv (camera ok) c i = ground (arith, media_result-Same ok c)
  apply-Inv ring_timed_out c i = ground (arith, on_ring_timeout-Inv c)
  apply-Inv (came_online now k) c i = on_peer_online-Inv now k c i
  apply-Inv (peer_sent p s) c i = on_signal-Inv p s c i

  apply_all-Inv : (os : List Op) (c : Call) → Inv c → Inv (apply_all throws os c)
  unfolding apply_all
  apply_all-Inv [] c i = i
  apply_all-Inv (o ∷ os) c i = apply_all-Inv os (apply throws o c) (apply-Inv o c i)

  -- After any events, in any order, from a new manager: the ring timer runs exactly while a call
  -- rings, and while it does there is a current peer.
  pub ring_timed : (os : List Op) → Inv (apply_all throws os new_call)
  ring_timed os = apply_all-Inv os new_call (ground arith)

  is_owed-settle : (k : Text) (ks : List Text) → is_owed k (settle k ks) ≡ false
  unfolding is_owed settle
  is_owed-settle k [] = refl
  is_owed-settle k (j ∷ ks) = ground (arith, is_owed-settle k ks)

  -- Where no call rings: a peer that is owed a notice gets it when it comes online, if the session
  -- has its keys, and coming online again changes nothing.
  pub owed_once :
      (now later : ℕ) (k : Text) (c : Call)
      → c.ringing ≡ none
      → is_owed k c.owed_missed ≡ true
      → throws (hex_to_bytes k) ≡ false
      → let d = on_peer_online throws now k c in
        (d.out ≡ send (hex_to_bytes k) call_missed ∷ c.out) × (on_peer_online throws later k d ≡ d)
  unfolding on_peer_online deliver_owed
  owed_once now later k c r o t = ground (arith, is_owed-settle k c.owed_missed)

  is_owed-owe : (k : Text) (ks : List Text) → is_owed k (owe k ks) ≡ true
  unfolding is_owed
  is_owed-owe k ks = ground (arith, ===_refl k)

  -- A call that rings out, to a callee whose keys the session has: the callee is sent two notices of
  -- the missed call before the hangup, and stays on the list of the notices that are owed.
  pub rung_out_twice :
      (r : Ringing) (c : Call)
      → c.ringing ≡ some r
      → c.peer_id ≡ some r.callee
      → throws r.callee ≡ false
      → let d = on_ring_timeout throws c in
        (d.out
          ≡ on_state hung_up
            ∷ no_remote_stream
            ∷ local_stream false
            ∷ send r.callee call_hangup
            ∷ send r.callee call_missed
            ∷ send r.callee call_missed
            ∷ log_line
            ∷ c.out)
        × (is_owed (hex_of r.callee) d.owed_missed ≡ true)
  unfolding on_ring_timeout hangup mark_missed tear_down
  rung_out_twice r c e p t = grind (arith, is_owed-owe)
