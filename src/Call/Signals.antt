-- ===== src/Call/Signals.antt =====
-- Who may do what to a call of `web/webrtc.js`, and in which order its signals may come.
use tele.Prelude.{
  ◌≡◌, refl, sym, ap, ◌∙◌, ◌≢◌, Bool, true, false, none, some, List, [], ◌∷◌, ◌++◌, append-nil,
  append_assoc, arith,
}
use tele.Bytes.{Text, Bytes}
use tele.Wire.Codes.{call_sdp_answer}
use tele.Call.{
  stable, have_local_offer, preview, connecting, send_sdp, add_candidate, on_state, local_stream,
  Call, emit, tear_down, add_all, mark_missed, resume, open_media, media_result, hangup,
}
use tele.Call.Step.{reject, hang_up, offer, is_ready, on_answer, on_candidate, on_signal}

-- No call, no ring and no camera.
pub record IsIdle (c : Call) : Type 0 where
  pub no_pc : c.pc ≡ none
  pub no_peer : c.peer_id ≡ none
  pub no_ring : (c.ringing ≡ none) × (c.ring_timer ≡ false)
  pub no_stream : c.streaming ≡ false
  pub no_candidates : c.pending_candidates ≡ []

module _ (throws : Bytes → Bool) where
  -- In a call with the peer q, a HANGUP or a REJECT of any other peer ends the call: the connection,
  -- the ring, the camera and the queued candidates are gone.
  pub any_peer_ends :
      (p q : Bytes) (c : Call)
      → c.peer_id ≡ some q
      → p ≢ q
      → IsIdle (on_signal throws p hang_up c) × IsIdle (on_signal throws p reject c)
  unfolding on_signal tear_down
  any_peer_ends p q c e d = ground arith

  -- When nothing goes on and nobody was asked, an offer of any peer whose keys the session has makes
  -- that peer the current one, and where the browser grants the camera without asking, it is opened,
  -- and the answer goes out.
  pub offer_unasked :
      (p : Bytes) (c : Call)
      → IsIdle c
      → c.waiting ≡ []
      → throws p ≡ false
      → let d = media_result throws true (on_signal throws p (offer true) c) in
        (d.streaming ≡ true)
        × (d.peer_id ≡ some p)
        × (d.out ≡ on_state connecting ∷ send_sdp p call_sdp_answer ∷ local_stream true ∷ c.out)
  unfolding on_signal open_media media_result resume add_all
  offer_unasked p c i w t = ground arith

  -- When the caller hangs up while the camera prompt of `call` is open and then grants it, the stream
  -- is opened with no call, and stays open.
  pub late_preview :
      (p : Bytes) (c : Call)
      → c.peer_id ≡ some p
      → throws p ≡ false
      → c.waiting ≡ preview ∷ []
      → let d = media_result throws true (hangup throws c) in
        (d.streaming ≡ true) × (d.pc ≡ none) × (d.peer_id ≡ none)
  unfolding hangup mark_missed tear_down media_result resume
  late_preview p c e t w = ground arith

-- Candidates that arrive one after the other.
unfoldable pub on_candidates : List Text → Call → Call
unfolding on_candidate
on_candidates [] c = c
on_candidates (x ∷ xs) c = on_candidates xs (on_candidate (some x) c)

ready_again : (xs : List Text) (c : Call) → is_ready c.pc ≡ true → on_candidates xs c ≡ add_all xs c
unfolding on_candidates add_all on_candidate
ready_again [] c r = refl
ready_again (x ∷ xs) c r = ground (arith, ready_again xs (emit (add_candidate x) c) r)

queued_up :
    (xs : List Text) (c : Call)
    → is_ready c.pc ≡ false
    → on_candidates xs c ≡ record c { pending_candidates = c.pending_candidates ++ xs }
unfolding on_candidates on_candidate
queued_up [] c r = rw (append-nil c.pending_candidates) refl
queued_up (x ∷ xs) c r =
    let c' : Call = record c { pending_candidates = c.pending_candidates ++ (x ∷ []) } in
    grind (arith, queued_up xs c' r, append_assoc c.pending_candidates (x ∷ []) xs)

out-add_all :
    (xs : List Text) (c d : Call) → c.out ≡ d.out → (add_all xs c).out ≡ (add_all xs d).out
unfolding add_all
out-add_all [] c d e = e
out-add_all (x ∷ xs) c d e =
    out-add_all xs (emit (add_candidate x) c) (emit (add_candidate x) d) (ground (arith, e))

abbrev answered : Call → Call
answered c = record c {
  pc = some (record { signaling = stable; has_remote = true });
  pending_candidates = [];
}

answer_lem :
    (c : Call)
    → c.pc ≡ some (record { signaling = have_local_offer; has_remote = false })
    → on_answer true c ≡ add_all c.pending_candidates (answered c)
unfolding on_answer
answer_lem c e = ground arith

answer_first :
    (xs : List Text) (c : Call)
    → c.pc ≡ some (record { signaling = have_local_offer; has_remote = false })
    → c.pending_candidates ≡ []
    → on_candidates xs (on_answer true c) ≡ add_all xs (answered c)
unfolding add_all
answer_first xs c e n = grind (arith, answer_lem c e, ready_again xs (answered c))

answer_last :
    (xs : List Text) (c : Call)
    → c.pc ≡ some (record { signaling = have_local_offer; has_remote = false })
    → c.pending_candidates ≡ []
    → on_answer true (on_candidates xs c) ≡ add_all xs (answered c)
answer_last xs c e n =
    let c' : Call = record c { pending_candidates = xs } in
    grind (arith, queued_up xs c, answer_lem c' e)

-- After an offer, with no candidates queued: the call is in the same state whether the answer comes
-- before the candidates or after them, and either way the connection is given every candidate, in
-- the order of arrival.
pub answer_commutes :
    (xs : List Text) (c : Call)
    → c.pc ≡ some (record { signaling = have_local_offer; has_remote = false })
    → c.pending_candidates ≡ []
    → (on_candidates xs (on_answer true c) ≡ on_answer true (on_candidates xs c))
      × ((on_answer true (on_candidates xs c)).out ≡ (add_all xs c).out)
answer_commutes xs c e n = (
  answer_first xs c e n ∙ sym (answer_last xs c e n),
  ap (λ (d : Call). d.out) (answer_last xs c e n) ∙ out-add_all xs (answered c) c refl,
)
