-- ===== src/Call/Answered.antt =====
-- Calls that were answered, and the notices of missed calls (`web/webrtc.js`).
use tele.Prelude.{
  ℕ, ◌≡◌, refl, ◌∙◌, inl, inr, Bool, true, false, none, some, List, [], ◌∷◌, arith, Bool-cases, All,
}
use tele.Bytes.{Text, Bytes}
use tele.Call.{
  to_initiate, to_answer, Call, is_owed, settle, clear_ring, tear_down, open_media, media_result,
  hangup, deliver_owed, on_peer_online, accept_incoming,
}
use tele.Call.Step.{
  Signal, missed, request, accept, reject, hang_up, offer, answer, candidate, on_answer,
  on_candidate, Op, placed, ended, accepted, declined, camera, ring_timed_out, came_online,
  peer_sent, on_signal, apply, apply_all,
}
use tele.Call.Ring.{Same, on_answer-Same, on_candidate-Same, open_media-Same, media_result-Same}

module _ (throws : Bytes → Bool) where
  accept_quiet :
      (p : Bytes) (c : Call)
      → let d = on_signal throws p accept c in
        (d.ringing ≡ none) × (d.ring_timer ≡ false) × (d.owed_missed ≡ c.owed_missed)
  unfolding on_signal
  accept_quiet p c =
      let c' : Call = record (clear_ring c) { peer_id = some p } in
      ground (arith, open_media-Same throws (to_initiate p) c')

  settle-fewer :
      (j k : Text) (ks : List Text) → is_owed k (settle j ks) ≡ true → is_owed k ks ≡ true
  unfolding is_owed settle
  settle-fewer j k [] e = e
  settle-fewer j k (i ∷ ks) e = ground (arith, settle-fewer j k ks, e)

  -- No call rings, and nobody is owed a notice that was not before.
  record IsQuiet (ks : List Text) (c : Call) : Type 0 where
    silent : c.ringing ≡ none
    idle : c.ring_timer ≡ false
    fewer : (k : Text) → is_owed k c.owed_missed ≡ true → is_owed k ks ≡ true

  same-IsQuiet :
      (ks : List Text) (c d : Call)
      → d.ringing ≡ none
      → d.ring_timer ≡ false
      → d.owed_missed ≡ c.owed_missed
      → IsQuiet ks c
      → IsQuiet ks d
  same-IsQuiet ks c d r t o h = record { silent = r; idle = t; fewer = λ k e. h.fewer k (rw⁻¹ o e) }

  Same-IsQuiet : (ks : List Text) (c d : Call) → Same c d → IsQuiet ks c → IsQuiet ks d
  Same-IsQuiet ks c d s h =
      same-IsQuiet ks c d (s.same_ringing ∙ h.silent) (s.same_timer ∙ h.idle) s.same_owed h

  hangup-IsQuiet : (ks : List Text) (c : Call) → IsQuiet ks c → IsQuiet ks (hangup throws c)
  unfolding hangup tear_down
  hangup-IsQuiet ks c h =
      same-IsQuiet ks c (hangup throws c) (ground (arith, h.silent)) (ground (arith, h.silent))
        (ground (arith, h.silent)) h

  accept_incoming-IsQuiet :
      (ks : List Text) (p : Bytes) (c : Call)
      → IsQuiet ks c
      → IsQuiet ks (accept_incoming throws p c)
  unfolding accept_incoming
  accept_incoming-IsQuiet ks p c h =
      let d = accept_incoming throws p c in
      let r = h.silent in
      let t = h.idle in
      same-IsQuiet ks c d (grind (arith, open_media-Same, r)) (grind (arith, open_media-Same, t))
        (grind (arith, open_media-Same)) h

  on_peer_online-IsQuiet :
      (ks : List Text) (now : ℕ) (j : Text) (c : Call)
      → IsQuiet ks c
      → IsQuiet ks (on_peer_online throws now j c)
  unfolding on_peer_online deliver_owed
  on_peer_online-IsQuiet ks now j c h = elim (Bool-cases (is_owed j c.owed_missed)) [
    | inl o ↦
        let d = record c { owed_missed = settle j c.owed_missed } in
        let q : IsQuiet ks d = record {
          silent = h.silent;
          idle = h.idle;
          fewer = λ k e. h.fewer k (settle-fewer j k c.owed_missed e);
        } in
        same-IsQuiet ks d (on_peer_online throws now j c) (ground (arith, h.silent, o))
          (ground (arith, h.silent, h.idle, o)) (ground (arith, h.silent, o)) q
    | inr o ↦
        same-IsQuiet ks c (on_peer_online throws now j c) (ground (arith, h.silent, o))
          (ground (arith, h.silent, h.idle, o)) (ground (arith, h.silent, o)) h
  ]

  on_signal-IsQuiet :
      (ks : List Text) (p : Bytes) (s : Signal) (c : Call)
      → IsQuiet ks c
      → IsQuiet ks (on_signal throws p s c)
  unfolding on_signal tear_down
  on_signal-IsQuiet ks p missed c h = same-IsQuiet ks c _ h.silent h.idle refl h
  on_signal-IsQuiet ks p request c h = same-IsQuiet ks c _ h.silent h.idle refl h
  on_signal-IsQuiet ks p accept c h =
      let (r, t, o) = accept_quiet p c in same-IsQuiet ks c (on_signal throws p accept c) r t o h
  on_signal-IsQuiet ks p reject c h = same-IsQuiet ks c _ refl refl refl h
  on_signal-IsQuiet ks p hang_up c h = same-IsQuiet ks c _ refl refl refl h
  on_signal-IsQuiet ks p (offer ok) c h =
      let c' : Call = record c { peer_id = some p } in
      Same-IsQuiet ks c' (open_media throws (to_answer p ok) c')
        (open_media-Same throws (to_answer p ok) c') (same-IsQuiet ks c c' h.silent h.idle refl h)
  on_signal-IsQuiet ks p (answer ok) c h =
      Same-IsQuiet ks c (on_answer ok c) (on_answer-Same ok c) h
  on_signal-IsQuiet ks p (candidate x) c h =
      Same-IsQuiet ks c (on_candidate x c) (on_candidate-Same x c) h

  abbrev pub is_placed : Op → Bool
  is_placed (placed now p) = true
  is_placed _ = false

  apply-IsQuiet :
      (ks : List Text) (o : Op) (c : Call)
      → is_placed o ≡ false
      → IsQuiet ks c
      → IsQuiet ks (apply throws o c)
  unfolding apply
  apply-IsQuiet ks (placed now p) c n h = absurd (cc n)
  apply-IsQuiet ks ended c n h = hangup-IsQuiet ks c h
  apply-IsQuiet ks (accepted p) c n h = accept_incoming-IsQuiet ks p c h
  apply-IsQuiet ks (declined p) c n h =
      same-IsQuiet ks c (apply throws (declined p) c) (ground (arith, h.silent))
        (ground (arith, h.idle)) (ground arith) h
  apply-IsQuiet ks (camera ok) c n h =
      Same-IsQuiet ks c (media_result throws ok c) (media_result-Same throws ok c) h
  apply-IsQuiet ks ring_timed_out c n h =
      same-IsQuiet ks c (apply throws ring_timed_out c) (ground (arith, h.silent, h.idle))
        (ground (arith, h.idle)) (ground (arith, h.idle)) h
  apply-IsQuiet ks (came_online now k) c n h = on_peer_online-IsQuiet ks now k c h
  apply-IsQuiet ks (peer_sent p s) c n h = on_signal-IsQuiet ks p s c h

  apply_all-IsQuiet :
      (ks : List Text) (os : List Op) (c : Call)
      → All (λ o. is_placed o ≡ false) os
      → IsQuiet ks c
      → IsQuiet ks (apply_all throws os c)
  unfolding apply_all
  apply_all-IsQuiet ks [] c n h = h
  apply_all-IsQuiet ks (o ∷ os) c n h =
      apply_all-IsQuiet ks os (apply throws o c) n.1 (apply-IsQuiet ks o c n.0 h)

  -- An answered call rings no more, and until the user places the next one nobody is put on the list of
  -- the peers who are owed a notice of a missed call, whatever happens: hangups of either side, camera
  -- prompts, frames of any peer, presence, and a ring timer that was still under way.
  pub answered_not_missed :
      (p : Bytes) (os : List Op) (c : Call)
      → All (λ o. is_placed o ≡ false) os
      → let d = apply_all throws os (on_signal throws p accept c) in
        (d.ringing ≡ none)
        × ((k : Text) → is_owed k d.owed_missed ≡ true → is_owed k c.owed_missed ≡ true)
  answered_not_missed p os c n =
      let d = on_signal throws p accept c in
      let (r, t, o) = accept_quiet p c in
      let start : IsQuiet c.owed_missed d = record {
        silent = r;
        idle = t;
        fewer = λ k e. rw⁻¹ o e;
      } in
      let q = apply_all-IsQuiet c.owed_missed os d n start in (q.silent, q.fewer)
