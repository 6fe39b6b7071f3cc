-- ===== src/Call/Media/Live.antt =====
-- While the video is on: which track the peer gets (`web/webrtc.js`).
use tele.Prelude.{
  ℕ, ◌≡◌, refl, ◌⊎◌, Bool, true, false, not, ◌||◌, Option, none, some, List, ◌==◌, if◌then◌else◌,
}
use tele.Call.Media.{
  Media, has, stop, set_video_input, set_audio_input, switch_camera, stop_screen_share,
  toggle_screen_share, toggle_mute,
}

abbrev pub is : Option ℕ → ℕ → Bool
is none t = false
is (some x) t = x == t

pub has-stop_iff : (t : ℕ) (o : Option ℕ) (ts : List ℕ) → has t (stop o ts) ≡ (is o t || has t ts)
unfolding has
has-stop_iff t none ts = refl
has-stop_iff t (some x) ts = refl

-- A track that the call has not seen: it is not stopped, and is none of those in use.
abbrev pub is_old : ℕ → Media → Bool
is_old t m = is m.video t || is m.audio t || is m.screen t || has t m.stopped

-- What a prompt gives: nothing, when it is refused, or a new track.
abbrev pub IsNew : Option ℕ → Media → Type 0
IsNew none m = Unit {0}
IsNew (some t) m = is_old t m ≡ false

-- The microphone, the camera and the screen change; each prompt is refused or gives a new track. A
-- camera is chosen by its device only while there is a track of a camera or a screen.
pub data Step : Media → Media → Type 0 where
  video_input :
      (t v : ℕ) (m : Media)
      → m.video ≡ some v
      → is_old t m ≡ false
      → Step m (set_video_input (some t) m)
  audio_input : (t : ℕ) (m : Media) → is_old t m ≡ false → Step m (set_audio_input (some t) m)
  camera : (t : ℕ) (m : Media) → is_old t m ≡ false → Step m (switch_camera (some t) m).1
  refused :
      (m : Media) → Step m (switch_camera none (set_audio_input none (set_video_input none m))).1
  share :
      (display cam : Option ℕ) (m : Media)
      → IsNew display m
      → IsNew cam m
      → Step m (toggle_screen_share display cam m).1
  share_ended : (cam : Option ℕ) (m : Media) → IsNew cam m → Step m (stop_screen_share cam m)
  mute : (m : Media) → Step m (toggle_mute m).1

pub data Steps : Media → Media → Type 0 where
  done : (m : Media) → Steps m m
  more : (l m n : Media) → Step l m → Steps m n → Steps l n

-- The peer gets the track that the user sees, and it runs: it is not stopped, nor the microphone.
pub record IsLive (m : Media) : Type 0 where
  pub track : ℕ
  pub streams : m.streaming ≡ true
  pub on : m.video_off ≡ false
  pub seen : m.video ≡ some track
  pub given : m.video_sender ≡ some (some track)
  pub runs : (is m.audio track || has track m.stopped) ≡ false

-- Nobody sees anything: there is no track, and the sender has none either.
pub record IsDark (m : Media) : Type 0 where
  pub streams : m.streaming ≡ true
  pub on : m.video_off ≡ false
  pub unseen : m.video ≡ none
  pub nothing : m.video_sender ≡ some none
  pub unshared : m.screen ≡ none

-- The peer sees what the user sees.
abbrev pub IsHonest : Media → Type 0
IsHonest m = IsLive m ⊎ IsDark m

pub if_not : {A : Type 0} (b : Bool) (x y : A) → b ≡ true → (if not b then x else y) ≡ y
if_not true x y h = refl
if_not false x y h = absurd (cc h)

pub if_true : {A : Type 0} (b : Bool) (x y : A) → b ≡ true → (if b then x else y) ≡ x
if_true true x y h = refl
if_true false x y h = absurd (cc h)
