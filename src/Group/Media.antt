-- ===== src/Group/Media.antt =====
-- The media controls of GroupCallManager (`web/group_call.js`): the camera and the screen go to every
-- member. A track is a number; `some t` is a new track that the browser gives for a prompt, none a
-- refusal.

pub mod Senders
pub mod Shared
use tele.Prelude.{
  ℕ, Bool, true, false, not, ◌&&◌, ◌||◌, Option, none, some, List, [], ◌∷◌, if◌then◌else◌, ◌===◌,
}
use tele.Bytes.{Text}
use tele.Call.Media.{Sender, has, without, stop, replace_any}

pub record Media : Type 0 where
  -- localStream is there, with getVideoTracks()[0] and getAudioTracks()[0]
  pub streaming : Bool
  pub video : Option ℕ
  pub audio : Option ℕ
  -- the tracks that were stopped, and those that are not enabled
  pub stopped : List ℕ
  pub disabled : List ℕ
  -- the members with a connection, each with its video sender
  pub legs : List (Text × Option Sender)
  -- _videoOff, _lastVideoTrack and _screenStream
  pub video_off : Bool
  pub last_video : Option ℕ
  pub screen : Option ℕ

-- _eachVideoSender with `s => s.replaceTrack(t)`
unfoldable pub each_video_sender :
    Option ℕ → List (Text × Option Sender) → List (Text × Option Sender)
each_video_sender t [] = []
each_video_sender t ((k, s) ∷ legs) = (k, replace_any t s) ∷ each_video_sender t legs

-- The tracks that _makePeer attaches to a new connection.
unfoldable pub make_peer : Text → Media → Media
make_peer k m =
    let s = if m.streaming then elim m.video [ none ↦ none | some v ↦ some (some v) ] else none in
    record m { legs = (k, s) ∷ m.legs }

-- _closePeer
unfoldable pub close_peer : Text → List (Text × Option Sender) → List (Text × Option Sender)
close_peer k [] = []
close_peer k ((j, s) ∷ legs) =
    let rest = close_peer k legs in if j === k then rest else (j, s) ∷ rest

-- toggleMute, with the new muted state
unfoldable pub toggle_mute : Media → Bool × Media
unfolding has without
toggle_mute m = elim m.audio [
  | none ↦ (false, m)
  | some a ↦
      if not m.streaming
      then (false, m)
      else if has a m.disabled
      then (false, record m { disabled = without a m.disabled })
      else (true, record m { disabled = a ∷ m.disabled })
]

abbrev enable : Option ℕ → List ℕ → List ℕ
enable none ts = ts
enable (some v) ts = without v ts

-- The branch of toggleVideo that turns the video on, given _lastVideoTrack.
unfoldable pub turn_on : Option ℕ → Media → Media
unfolding each_video_sender without
turn_on none m = record m { video_off = false }
turn_on (some t) m = record m {
  disabled = enable m.video m.disabled;
  legs = each_video_sender (some t) m.legs;
  video_off = false;
}

-- The branch that turns it off.
unfoldable pub turn_off : Media → Media
unfolding each_video_sender
turn_off m = record m {
  disabled = stop m.video m.disabled;
  last_video = elim m.video [ none ↦ m.last_video | some v ↦ some v ];
  legs = each_video_sender none m.legs;
  video_off = true;
}

abbrev is_none : Option ℕ → Bool
is_none none = true
is_none (some t) = false

-- toggleVideo, with the new "off" state
unfoldable pub toggle_video : Media → Bool × Media
unfolding turn_on turn_off
toggle_video m =
    if not m.streaming || is_none m.video && not m.video_off
    then (false, m)
    else if m.video_off
    then (false, turn_on m.last_video m)
    else (true, turn_off m)

-- _stopScreenShare, with the answer to the prompt for the camera
unfoldable pub stop_screen_share : Option ℕ → Media → Media
unfolding each_video_sender
stop_screen_share cam m = elim m.screen [
  | none ↦ m
  | some display ↦ record m {
    screen = none;
    stopped = display ∷ stop m.video m.stopped;
    video = if m.streaming then cam else m.video;
    legs = each_video_sender cam m.legs;
  }
]

-- toggleScreenShare, with the answers to the prompts for the display and for the camera
unfoldable pub toggle_screen_share : Option ℕ → Option ℕ → Media → Bool × Media
unfolding stop_screen_share each_video_sender
toggle_screen_share display cam m = elim m.screen [
  | some _ ↦ if not m.streaming then (false, m) else (false, stop_screen_share cam m)
  | none ↦ elim display [
    | none ↦ (false, m)
    | some t ↦ if not m.streaming then (false, m) else (
      true,
      record m {
        stopped = stop m.video m.stopped;
        video = some t;
        legs = each_video_sender (some t) m.legs;
        video_off = false;
        screen = some t;
      },
    )
  ]
]

-- The part of _teardown that is about tracks.
unfoldable pub release : Media → Media
release m = record m {
  streaming = false;
  video = none;
  audio = none;
  stopped = stop m.screen (stop m.audio (stop m.video m.stopped));
  legs = [];
  video_off = false;
  last_video = none;
  screen = none;
}
