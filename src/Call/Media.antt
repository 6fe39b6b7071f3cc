-- ===== src/Call/Media.antt =====
-- The media controls of CallManager (`web/webrtc.js`): camera, microphone and screen. A track is a
-- number; `some t` is a new track that the browser gives for a prompt, none a refusal. The video
-- sender of the connection is the only one whose track may be null.

pub mod Stale
pub mod Live
pub mod Unsent
use tele.Prelude.{
  ℕ, Bool, true, false, not, ◌||◌, Option, none, some, List, [], ◌∷◌, ◌==◌, if◌then◌else◌,
}

-- A sender of the connection, with its track.
abbrev pub Sender : Type 0
Sender = Option ℕ

pub record Media : Type 0 where
  -- localStream is there
  pub streaming : Bool
  -- getVideoTracks()[0] and getAudioTracks()[0]
  pub video : Option ℕ
  pub audio : Option ℕ
  -- the tracks that were stopped, and those that are not enabled
  pub stopped : List ℕ
  pub disabled : List ℕ
  -- the senders of the connection, if there is one
  pub video_sender : Option Sender
  pub audio_sender : Option Sender
  -- _videoOff, _lastVideoTrack and _screenStream
  pub video_off : Bool
  pub last_video : Option ℕ
  pub screen : Option ℕ
  -- preferredFacing is 'user'
  pub facing_user : Bool

unfoldable pub has : ℕ → List ℕ → Bool
has t [] = false
has t (x ∷ ts) = x == t || has t ts

unfoldable pub without : ℕ → List ℕ → List ℕ
without t [] = []
without t (x ∷ ts) = let rest = without t ts in if x == t then rest else x ∷ rest

-- `old?.stop()`
abbrev pub stop : Option ℕ → List ℕ → List ℕ
stop none ts = ts
stop (some t) ts = t ∷ ts

-- `sender.replaceTrack(t)` on the first sender of a kind that has a track.
abbrev pub replace_set : Option ℕ → Option Sender → Option Sender
replace_set t none = none
replace_set t (some none) = some none
replace_set t (some (some old)) = some t

-- The same, and else on the first sender without a track.
abbrev pub replace_any : Option ℕ → Option Sender → Option Sender
replace_any t none = none
replace_any t (some s) = some t

-- toggleVideo, with the new "off" state
unfoldable pub toggle_video : Media → Bool × Media
unfolding without
toggle_video m = elim m.video [
  | none ↦ (false, m)
  | some v ↦
      if not m.streaming
      then (false, m)
      else if m.video_off
      then (
        false,
        record m {
          disabled = without v m.disabled;
          video_sender = elim m.last_video [
            | none ↦ m.video_sender
            | some t ↦ replace_any (some t) m.video_sender
          ];
          video_off = false;
        },
      )
      else (
        true,
        record m {
          disabled = v ∷ m.disabled;
          last_video = some v;
          video_sender = elim m.last_video [
            | none ↦ replace_set none m.video_sender
            | some t ↦ replace_any none m.video_sender
          ];
          video_off = true;
        },
      )
]

-- setVideoInput, once the prompt is answered
unfoldable pub set_video_input : Option ℕ → Media → Media
set_video_input none m = m
set_video_input (some next) m = if not m.streaming then m else record m {
  stopped = stop m.video m.stopped;
  video = some next;
  video_sender = replace_set (some next) m.video_sender;
}

-- setAudioInput
unfoldable pub set_audio_input : Option ℕ → Media → Media
set_audio_input none m = m
set_audio_input (some next) m = if not m.streaming then m else record m {
  stopped = stop m.audio m.stopped;
  audio = some next;
  audio_sender = replace_set (some next) m.audio_sender;
}

-- switchCamera; false is the exception of `removeTrack(undefined)`.
unfoldable pub switch_camera : Option ℕ → Media → Bool × Media
switch_camera got m =
    let m' = record m { facing_user = not m.facing_user } in
    if not m.streaming then (true, m') else elim got [
      | none ↦ (true, m')
      | some next ↦ elim m.video [
        | none ↦ (false, m')
        | some old ↦ (
          true,
          record m' {
            stopped = old ∷ m.stopped;
            video = some next;
            video_sender = replace_set (some next) m.video_sender;
          },
        )
      ]
    ]

-- _stopScreenShare, with the answer to the prompt for the camera
unfoldable pub stop_screen_share : Option ℕ → Media → Media
stop_screen_share cam m = elim m.screen [
  | none ↦ m
  | some display ↦ record m {
    screen = none;
    stopped = display ∷ stop m.video m.stopped;
    video = if m.streaming then cam else m.video;
    video_sender = replace_any cam m.video_sender;
  }
]

-- toggleScreenShare, with the answers to the prompts for the display and for the camera
unfoldable pub toggle_screen_share : Option ℕ → Option ℕ → Media → Bool × Media
unfolding stop_screen_share
toggle_screen_share display cam m = elim m.screen [
  | some _ ↦ if not m.streaming then (false, m) else (false, stop_screen_share cam m)
  | none ↦ elim display [
    | none ↦ (false, m)
    | some t ↦ if not m.streaming then (false, m) else (
      true,
      record m {
        stopped = stop m.video m.stopped;
        video = some t;
        video_sender = replace_any (some t) m.video_sender;
        video_off = false;
        screen = some t;
      },
    )
  ]
]

-- toggleMute, with the new muted state
unfoldable pub toggle_mute : Media → Bool × Media
unfolding has without
toggle_mute m = elim m.audio [
  | none ↦ (false, m)
  | some a ↦
      if not m.streaming
      then (false, m)
      else if has a m.disabled
      then (false, record m { disabled = without a m.disabled })
      else (true, record m { disabled = a ∷ m.disabled })
]

-- The part of _tearDown that stops the tracks.
unfoldable pub release : Media → Media
release m = record m {
  streaming = false;
  video = none;
  audio = none;
  stopped = stop m.screen (stop m.audio (stop m.video m.stopped));
  video_sender = none;
  audio_sender = none;
  screen = none;
}

-- A call whose camera and microphone are open and sent.
unfoldable pub opened_media : ℕ → ℕ → Media → Media
opened_media cam mic m = record m {
  streaming = true;
  video = some cam;
  audio = some mic;
  video_sender = some (some cam);
  audio_sender = some (some mic);
}
