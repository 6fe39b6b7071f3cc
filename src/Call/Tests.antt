-- ===== src/Call/Tests.antt =====
-- Small calls.
use tele.Prelude.{◌≡◌, refl, Bool, true, false, none, some, List, [], ◌∷◌, ◌===◌}
use tele.Bytes.{Text, Bytes, hex_digit, hex_of}
use tele.Call.{Call, new_call, is_owed}
use tele.Call.Step.{
  accept, Op, placed, ended, camera, ring_timed_out, came_online, on_signal, apply_all,
}
use tele.Call.Answered.{answered_not_missed}
use tele.Call.Ring.{Inv, ring_timed}
use tele.Call.Media.{
  Media, has, toggle_video, set_video_input, stop_screen_share, toggle_screen_share, release,
  opened_media,
}
use tele.Call.Media.Unsent.{Choice, picked, switched, muted, chosen, IsHidden, camera_unsent}
use tele.Call.Media.Live.{IsLive}
use tele.Call.Media.Stale.{IsDead, stale_track}

abbrev ann : Bytes
ann = 10 ∷ 1 ∷ []

-- The session has the keys of all peers.
abbrev knows_all : Bytes → Bool
knows_all p = false

abbrev placed_ops : List Op
placed_ops = placed 1000 ann ∷ []

-- A call to Ann, with the camera prompt open.
abbrev placed_call : Call
placed_call = apply_all knows_all placed_ops new_call

ring_timed_example : Inv placed_call
ring_timed_example = ring_timed knows_all placed_ops

-- The camera is given, Ann goes away and comes back, the timer fires late, and the user hangs up.
abbrev talk : List Op
talk = camera true ∷ came_online 9000 (hex_of ann) ∷ ring_timed_out ∷ ended ∷ []

answered_not_missed_example :
    let d = apply_all knows_all talk (on_signal knows_all ann accept placed_call) in
    (d.ringing ≡ none)
    × ((k : Text) → is_owed k d.owed_missed ≡ true → is_owed k placed_call.owed_missed ≡ true)
answered_not_missed_example =
    answered_not_missed knows_all ann talk placed_call (refl, (refl, (refl, (refl, tt))))

-- Ann did not answer, and is still owed a notice.
abbrev owing : Call
owing = record new_call { owed_missed = hex_of ann ∷ [] }

owing_ann : is_owed (hex_of ann) owing.owed_missed ≡ true
unfolding is_owed hex_of hex_digit ◌===◌
owing_ann = refl

abbrev closed_media : Media
closed_media = record {
  streaming = false;
  video = none;
  audio = none;
  stopped = [];
  disabled = [];
  video_sender = none;
  audio_sender = none;
  video_off = false;
  last_video = none;
  screen = none;
  facing_user = true;
}

abbrev on_air : Media
on_air = opened_media 1 2 closed_media

-- The screen is shared, the camera is refused at the end, and the screen is shared again.
abbrev shared : Media
shared = (toggle_screen_share (some 3) none on_air).1

abbrev dark : Media
dark = stop_screen_share none shared

abbrev shared_again : Media
shared_again = (toggle_screen_share (some 4) none dark).1

shared-IsLive : IsLive shared
unfolding opened_media toggle_screen_share has
shared-IsLive = record {
  track = 3;
  streams = refl;
  on = refl;
  seen = refl;
  given = refl;
  runs = refl;
}

abbrev choices : List Choice
choices = switched 6 ∷ muted ∷ picked 7 ∷ []

camera_unsent_example :
    IsHidden (chosen choices (set_video_input (some 5) (stop_screen_share none shared)))
camera_unsent_example =
    camera_unsent 3 5 choices shared shared-IsLive (unfold toggle_screen_share opened_media in refl)

stale_track_example :
    let off = (toggle_video (opened_media 1 2 closed_media)).1 in
    let second = toggle_video (opened_media 6 7 (release off)) in
    IsDead 1 (toggle_video (set_video_input (some 5) off)).1
    × (second.0 ≡ false)
    × IsDead 1 second.1
stale_track_example = stale_track 1 2 5 6 7 closed_media refl
