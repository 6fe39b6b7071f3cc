-- ===== src/Call/Media/Unsent.antt =====
-- A camera that is refused at the end of a screen share (`web/webrtc.js`).
use tele.Prelude.{ℕ, ◌≡◌, Bool, true, false, Option, none, some, List, [], ◌∷◌, arith}
use tele.Call.Media.{
  Media, set_video_input, set_audio_input, switch_camera, stop_screen_share, toggle_mute,
}
use tele.Call.Media.Live.{IsLive}

-- The choices of the user that leave the screen alone, with the tracks that the prompts give.
pub data Choice : Type 0 where
  picked switched spoken : ℕ → Choice
  muted : Choice

unfoldable pub chosen : List Choice → Media → Media
unfolding set_video_input switch_camera set_audio_input toggle_mute
chosen [] m = m
chosen (picked t ∷ cs) m = chosen cs (set_video_input (some t) m)
chosen (switched t ∷ cs) m = chosen cs (switch_camera (some t) m).1
chosen (spoken t ∷ cs) m = chosen cs (set_audio_input (some t) m)
chosen (muted ∷ cs) m = chosen cs (toggle_mute m).1

abbrev pub is_some : Option ℕ → Bool
is_some none = false
is_some (some t) = true

-- The user sees a camera, with the video on, and the peer gets nothing.
pub record IsHidden (m : Media) : Type 0 where
  pub on : m.video_off ≡ false
  pub seen : is_some m.video ≡ true
  pub nothing : m.video_sender ≡ some none

picked-IsHidden : (t : ℕ) (m : Media) → IsHidden m → IsHidden (set_video_input (some t) m)
unfolding set_video_input
picked-IsHidden t m h = record {
  on = ground (arith, h.on);
  seen = ground (arith, h.seen);
  nothing = ground (arith, h.nothing);
}

switched-IsHidden : (t : ℕ) (m : Media) → IsHidden m → IsHidden (switch_camera (some t) m).1
unfolding switch_camera
switched-IsHidden t m h = record {
  on = ground (arith, h.on);
  seen = ground (arith, h.seen);
  nothing = ground (arith, h.nothing);
}

spoken-IsHidden : (t : ℕ) (m : Media) → IsHidden m → IsHidden (set_audio_input (some t) m)
unfolding set_audio_input
spoken-IsHidden t m h = record {
  on = ground (arith, h.on);
  seen = ground (arith, h.seen);
  nothing = ground (arith, h.nothing);
}

muted-IsHidden : (m : Media) → IsHidden m → IsHidden (toggle_mute m).1
unfolding toggle_mute
muted-IsHidden m h = record {
  on = ground (arith, h.on);
  seen = ground (arith, h.seen);
  nothing = ground (arith, h.nothing);
}

chosen-IsHidden : (cs : List Choice) (m : Media) → IsHidden m → IsHidden (chosen cs m)
unfolding chosen
chosen-IsHidden [] m h = h
chosen-IsHidden (picked t ∷ cs) m h =
    chosen-IsHidden cs (set_video_input (some t) m) (picked-IsHidden t m h)
chosen-IsHidden (switched t ∷ cs) m h =
    chosen-IsHidden cs (switch_camera (some t) m).1 (switched-IsHidden t m h)
chosen-IsHidden (spoken t ∷ cs) m h =
    chosen-IsHidden cs (set_audio_input (some t) m) (spoken-IsHidden t m h)
chosen-IsHidden (muted ∷ cs) m h = chosen-IsHidden cs (toggle_mute m).1 (muted-IsHidden m h)

-- The first camera that is chosen then.
first-IsHidden :
    (d t : ℕ) (m : Media)
    → IsLive m
    → m.screen ≡ some d
    → IsHidden (set_video_input (some t) (stop_screen_share none m))
unfolding stop_screen_share set_video_input
first-IsHidden d t m h c = record {
  on = ground (arith, h.on, h.streams, c);
  seen = ground (arith, h.streams, c);
  nothing = ground (arith, h.given, h.streams, c);
}

-- If a screen share with the video on ends and the camera is refused, then after a camera is chosen by
-- its device the user sees it, and the peer gets no video, whatever cameras and microphones are chosen
-- and muted from then on without a new share.
pub camera_unsent :
    (d t : ℕ) (cs : List Choice) (m : Media)
    → IsLive m
    → m.screen ≡ some d
    → IsHidden (chosen cs (set_video_input (some t) (stop_screen_share none m)))
camera_unsent d t cs m h c =
    chosen-IsHidden cs (set_video_input (some t) (stop_screen_share none m))
      (first-IsHidden d t m h c)
