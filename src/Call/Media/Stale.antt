-- ===== src/Call/Media/Stale.antt =====
-- What the media controls of `web/webrtc.js` forget: a camera that was exchanged or a call that ended
-- while the video was off, and a screen that was shared with the video off.
use mathlib.Core.Path.{subst}
use tele.Prelude.{
  ℕ, ◌≡◌, refl, sym, ◌∙◌, inl, inr, true, false, Option, none, some, List, ◌∷◌, arith, Option-cases,
}
use tele.Call.Media.{
  Sender, Media, has, stop, toggle_video, set_video_input, stop_screen_share, release, opened_media,
}

has_head : (t : ℕ) (ts : List ℕ) → has t (t ∷ ts) ≡ true
unfolding has
has_head t ts = ground arith

has_tail : (t x : ℕ) (ts : List ℕ) → has t ts ≡ true → has t (x ∷ ts) ≡ true
unfolding has
has_tail t x ts h = ground (arith, h)

has-stop : (t : ℕ) (o : Option ℕ) (ts : List ℕ) → has t ts ≡ true → has t (stop o ts) ≡ true
has-stop t none ts h = h
has-stop t (some x) ts h = has_tail t x ts h

-- An open call whose video has been turned off.
turned_off :
    (cam mic : ℕ) (m : Media)
    → m.video_off ≡ false
    → let off = (toggle_video (opened_media cam mic m)).1 in
      (off.video_sender ≡ some none)
      × (off.last_video ≡ some cam)
      × (off.video_off ≡ true)
      × (off.video ≡ some cam)
      × (off.streaming ≡ true)
unfolding toggle_video opened_media
turned_off cam mic m h = elim (Option-cases m.last_video) [
  | inl e ↦ rw (h, toggle_video, e) (refl, refl, refl, refl, refl)
  | inr (t, e) ↦ rw (h, toggle_video, e) (refl, refl, refl, refl, refl)
]

-- A call whose video is turned on again.
turned_on :
    (v last : ℕ) (s : Sender) (m : Media)
    → m.video ≡ some v
    → m.streaming ≡ true
    → m.video_off ≡ true
    → m.last_video ≡ some last
    → m.video_sender ≡ some s
    → ((toggle_video m).1.video_sender ≡ some (some last))
      × ((toggle_video m).1.stopped ≡ m.stopped)
unfolding toggle_video
turned_on v last s m hv hs ho hl hp = rw (hv, toggle_video, hs, ho, hl, hp) (refl, refl)

-- The peer gets a track that is stopped.
abbrev pub IsDead : ℕ → Media → Type 0
IsDead t m = (m.video_sender ≡ some (some t)) × (has t m.stopped ≡ true)

switched-IsDead :
    (cam next : ℕ) (off : Media)
    → off.video_sender ≡ some none
    → off.last_video ≡ some cam
    → off.video_off ≡ true
    → off.video ≡ some cam
    → off.streaming ≡ true
    → IsDead cam (toggle_video (set_video_input (some next) off)).1
unfolding set_video_input
switched-IsDead cam next off hp hl ho hv hs =
    let m : Media = record off {
      stopped = cam ∷ off.stopped;
      video = some next;
      video_sender = some none;
    } in
    let e : set_video_input (some next) off ≡ m =
      unfold set_video_input in rw (hs, set_video_input, hv, hp) refl in
    let (p, q) = turned_on next cam none m refl hs ho hl refl in
    subst (λ (x : Media). IsDead cam (toggle_video x).1) (sym e)
      (p, rw q (has_head cam off.stopped))

ended-IsDead :
    (cam cam' mic' : ℕ) (off : Media)
    → off.last_video ≡ some cam
    → off.video_off ≡ true
    → off.video ≡ some cam
    → IsDead cam (toggle_video (opened_media cam' mic' (release off))).1
ended-IsDead cam cam' mic' off hl ho hv =
    let m = opened_media cam' mic' (release off) in
    let q : ((toggle_video m).1.video_sender ≡ some (some cam))
        × ((toggle_video m).1.stopped ≡ m.stopped) =
      unfold opened_media release in turned_on cam' cam (some cam') m refl refl ho hl refl in
    let k : has cam m.stopped ≡ true =
      unfold opened_media release in
      has-stop cam off.screen (stop off.audio (stop off.video off.stopped))
        (has-stop cam off.audio (stop off.video off.stopped) (rw hv (has_head cam off.stopped))) in
    (q.0, rw q.1 k)

turned_on_again :
    (v : ℕ) (m : Media)
    → m.video ≡ some v
    → m.streaming ≡ true
    → m.video_off ≡ true
    → (toggle_video m).0 ≡ false
unfolding toggle_video
turned_on_again v m hv hs ho = rw (hv, toggle_video, hs, ho) refl

-- The video of a call with an open camera is turned off, another camera is chosen, and the video is
-- turned on: the peer gets the old camera, which is stopped. If the call ends while its video is off,
-- the switch that should turn the video off in the next call turns it on, and the peer gets the
-- stopped camera of the first call.
pub stale_track :
    (cam mic next cam' mic' : ℕ) (m : Media)
    → m.video_off ≡ false
    → let off = (toggle_video (opened_media cam mic m)).1 in
      let second = toggle_video (opened_media cam' mic' (release off)) in
      IsDead cam (toggle_video (set_video_input (some next) off)).1
      × (second.0 ≡ false)
      × IsDead cam second.1
stale_track cam mic next cam' mic' m h =
    let (hp, hl, ho, hv, hs) = turned_off cam mic m h in
    let off = (toggle_video (opened_media cam mic m)).1 in
    (
      switched-IsDead cam next off hp hl ho hv hs,
      unfold opened_media release in
          turned_on_again cam' (opened_media cam' mic' (release off)) refl refl ho,
      ended-IsDead cam cam' mic' off hl ho hv,
    )

shared_off :
    (t : ℕ) (m : Media)
    → m.streaming ≡ true
    → m.video ≡ some t
    → m.video_off ≡ false
    → m.video_sender ≡ some (some t)
    → ((toggle_video m).1.video_off ≡ true)
      × ((toggle_video m).1.video_sender ≡ some none)
      × ((toggle_video m).1.screen ≡ m.screen)
unfolding toggle_video
shared_off t m hs hv ho hp = elim (Option-cases m.last_video) [
  | inl e ↦ rw (hv, toggle_video, hs, ho, e, hp) (refl, refl, refl)
  | inr (u, e) ↦ rw (hv, toggle_video, hs, ho, e, hp) (refl, refl, refl)
]

share_ends :
    (t cam : ℕ) (s : Sender) (m : Media)
    → m.screen ≡ some t
    → m.video_sender ≡ some s
    → ((stop_screen_share (some cam) m).video_off ≡ m.video_off)
      × ((stop_screen_share (some cam) m).video_sender ≡ some (some cam))
unfolding stop_screen_share
share_ends t cam s m hc hp = rw (hc, stop_screen_share, hp) (refl, refl)

-- While the screen is shared the user turns the video off; when the sharing ends and the browser gives
-- a camera, the peer gets the camera, although the video is still off.
pub share_end_uncovers :
    (t cam : ℕ) (m : Media)
    → m.streaming ≡ true
    → m.screen ≡ some t
    → m.video ≡ some t
    → m.video_off ≡ false
    → m.video_sender ≡ some (some t)
    → let m' = stop_screen_share (some cam) (toggle_video m).1 in
      (m'.video_off ≡ true) × (m'.video_sender ≡ some (some cam))
share_end_uncovers t cam m hs hc hv ho hp =
    let (o, n, c) = shared_off t m hs hv ho hp in
    let (p, q) = share_ends t cam none (toggle_video m).1 (c ∙ hc) n in (p ∙ o, q)
