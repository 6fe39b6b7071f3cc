-- ===== src/Group/Media/Shared.antt =====
-- What the members of a group call see (`web/group_call.js`).
use mathlib.Core.Path.{subst}
use tele.Prelude.{
  ℕ, ◌≡◌, refl, sym, ap, ◌∙◌, ◌⊎◌, inl, inr, Bool, true, false, ◌||◌, Option, none, some, ◌∷◌,
  arith, Bool-cases, Option-cases,
}
use tele.Bytes.{Text}
use tele.Group.Media.Senders.{AllGet, AllGet-each, AllGet-each_none, AllGet-close_peer, Gets-new}
use tele.Group.Media.{
  Media, each_video_sender, make_peer, close_peer, toggle_mute, turn_on, turn_off, toggle_video,
  stop_screen_share, toggle_screen_share,
}
use tele.Call.Media.{has, stop}
use tele.Call.Media.Live.{is, has-stop_iff, if_not, if_true}

-- A track that the call has not seen.
abbrev pub is_old : ℕ → Media → Bool
is_old t m = is m.video t || is m.audio t || is m.screen t || has t m.stopped

-- What a prompt gives: nothing, when it is refused, or a new track.
abbrev pub IsNew : Option ℕ → Media → Type 0
IsNew none m = Unit {0}
IsNew (some t) m = is_old t m ≡ false

-- Members come and go, and the user mutes himself, turns the video off and on, and shares the screen.
-- A prompt that is answered gives a new track. A member joins only while there is a track of a camera
-- or a screen, and the sharing ends only while the video is on.
pub data Step : Media → Media → Type 0 where
  joins : (k : Text) (v : ℕ) (m : Media) → m.video ≡ some v → Step m (make_peer k m)
  leaves : (k : Text) (m : Media) → Step m (record m { legs = close_peer k m.legs })
  mutes : (m : Media) → Step m (toggle_mute m).1
  toggles : (m : Media) → Step m (toggle_video m).1
  shares :
      (t : ℕ) (m : Media)
      → m.screen ≡ none
      → is_old t m ≡ false
      → Step m (toggle_screen_share (some t) none m).1
  refuses : (m : Media) → m.screen ≡ none → Step m (toggle_screen_share none none m).1
  share_ends :
      (cam : Option ℕ) (m : Media)
      → m.video_off ≡ false
      → IsNew cam m
      → Step m (stop_screen_share cam m)

pub data Steps : Media → Media → Type 0 where
  done : (m : Media) → Steps m m
  more : (l m n : Media) → Step l m → Steps m n → Steps l n

-- Every member gets the track that the user sees, which is neither stopped nor the microphone; while
-- the video is off, that track is kept for later.
pub record IsShared (m : Media) : Type 0 where
  pub track : ℕ
  pub streams : m.streaming ≡ true
  pub seen : m.video ≡ some track
  pub runs : (is m.audio track || has track m.stopped) ≡ false
  pub given : AllGet m.video_off track m.legs
  pub kept : m.video_off ≡ true → m.last_video ≡ some track

-- Nobody sees anything: there is no track, but every member has a sender for the next one.
pub record IsDark (m : Media) : Type 0 where
  pub streams : m.streaming ≡ true
  pub on : m.video_off ≡ false
  pub unseen : m.video ≡ none
  pub unshared : m.screen ≡ none
  pub waiting : AllGet true 0 m.legs

-- All members see what the user sees.
abbrev pub IsCommon : Media → Type 0
IsCommon m = IsShared m ⊎ IsDark m

joins-IsShared : (k : Text) (m : Media) → IsShared m → IsShared (make_peer k m)
unfolding make_peer
joins-IsShared k m h = record {
  track = h.track;
  streams = h.streams;
  seen = h.seen;
  runs = h.runs;
  given = rw (h.streams, h.seen) (Gets-new m.video_off h.track, h.given);
  kept = h.kept;
}

leaves-IsShared :
    (k : Text) (m : Media) → IsShared m → IsShared (record m { legs = close_peer k m.legs })
leaves-IsShared k m h = record {
  track = h.track;
  streams = h.streams;
  seen = h.seen;
  runs = h.runs;
  given = AllGet-close_peer m.video_off h.track k m.legs h.given;
  kept = h.kept;
}

same-IsShared :
    (m n : Media)
    → n.streaming ≡ m.streaming
    → n.video ≡ m.video
    → n.audio ≡ m.audio
    → n.stopped ≡ m.stopped
    → n.legs ≡ m.legs
    → n.video_off ≡ m.video_off
    → n.last_video ≡ m.last_video
    → IsShared m
    → IsShared n
same-IsShared m n es ev ea et el eo ek h = record {
  track = h.track;
  streams = es ∙ h.streams;
  seen = ev ∙ h.seen;
  runs = rw (ea, et) h.runs;
  given = rw (eo, el) h.given;
  kept = λ q. ek ∙ h.kept (sym eo ∙ q);
}

mutes-IsShared : (m : Media) → IsShared m → IsShared (toggle_mute m).1
mutes-IsShared m h =
    unfold toggle_mute in
    same-IsShared m (toggle_mute m).1 (ground arith) (ground arith) (ground arith) (ground arith)
      (ground arith) (ground arith) (ground arith) h

turn_on-IsShared : (m : Media) (h : IsShared m) → IsShared (turn_on (some h.track) m)
unfolding turn_on
turn_on-IsShared m h = record {
  track = h.track;
  streams = h.streams;
  seen = h.seen;
  runs = h.runs;
  given = AllGet-each m.video_off h.track h.track m.legs h.given;
  kept = λ q. absurd (cc q);
}

turn_off-IsShared : (m : Media) → IsShared m → IsShared (turn_off m)
unfolding turn_off
turn_off-IsShared m h = record {
  track = h.track;
  streams = h.streams;
  seen = h.seen;
  runs = h.runs;
  given = AllGet-each_none m.video_off h.track h.track m.legs h.given;
  kept = λ q. rw h.seen refl;
}

toggles-IsShared : (m : Media) → IsShared m → IsShared (toggle_video m).1
toggles-IsShared m h = elim (Bool-cases m.video_off) [
  | inl o ↦
      let e : (toggle_video m).1 ≡ turn_on m.last_video m =
        unfold toggle_video in rw (h.streams, h.seen, o) refl in
      subst IsShared (sym (e ∙ ap (λ l. turn_on l m) (h.kept o))) (turn_on-IsShared m h)
  | inr o ↦
      let e : (toggle_video m).1 ≡ turn_off m =
        unfold toggle_video in rw (h.streams, h.seen, o) refl in
      subst IsShared (sym e) (turn_off-IsShared m h)
]

-- A new track is neither the microphone nor stopped, also once the old one is.
new_runs :
    (t : ℕ) (m : Media)
    → is_old t m ≡ false
    → (is m.audio t || has t (stop m.video m.stopped)) ≡ false
new_runs t m n = rw (has-stop_iff t m.video m.stopped) (ground (arith, n))

shares-IsShared :
    (t : ℕ) (m : Media)
    → m.screen ≡ none
    → is_old t m ≡ false
    → (off : Bool) (u : ℕ) → AllGet off u m.legs
    → m.streaming ≡ true
    → IsShared (toggle_screen_share (some t) none m).1
shares-IsShared t m c n off u g i =
    let m' : Media = record m {
      stopped = stop m.video m.stopped;
      video = some t;
      legs = each_video_sender (some t) m.legs;
      video_off = false;
      screen = some t;
    } in
    let e : (toggle_screen_share (some t) none m).1 ≡ m' =
      unfold toggle_screen_share in
      rw (c, toggle_screen_share)
        (ap (λ (x : Bool × Media). x.1) (if_not m.streaming (false, m) (true, m') i)) in
    subst IsShared (sym e) (record {
      track = t;
      streams = i;
      seen = refl;
      runs = new_runs t m n;
      given = AllGet-each off t u m.legs g;
      kept = λ q. absurd (cc q);
    })

share_ends-IsShared :
    (t : ℕ) (m : Media)
    → m.video_off ≡ false
    → is_old t m ≡ false
    → IsShared m
    → IsShared (stop_screen_share (some t) m)
share_ends-IsShared t m o n h = elim (Option-cases m.screen) [
  | inl c ↦ unfold stop_screen_share in rw (c, stop_screen_share) h
  | inr (d, c) ↦
      let with_video = λ (v : Option ℕ). record m {
        screen = none;
        stopped = d ∷ stop m.video m.stopped;
        video = v;
        legs = each_video_sender (some t) m.legs;
      } in
      let m' = with_video (some t) in
      let e : stop_screen_share (some t) m ≡ m' =
        unfold stop_screen_share in
        rw (c, stop_screen_share)
          (ap with_video (if_true m.streaming (some t) m.video h.streams)) in
      let r = new_runs t m n in
      subst IsShared (sym e) (record {
        track = t;
        streams = h.streams;
        seen = refl;
        runs = unfold has in ground (arith, n, c, r);
        given = rw o (AllGet-each m.video_off t h.track m.legs h.given);
        kept = λ q. absurd (cc (sym o ∙ q));
      })
]

-- The camera is refused at the end of the sharing.
share_ends-IsDark :
    (m : Media) → m.video_off ≡ false → IsShared m → IsCommon (stop_screen_share none m)
share_ends-IsDark m o h = elim (Option-cases m.screen) [
  | inl c ↦ unfold stop_screen_share in rw (c, stop_screen_share) (inl h)
  | inr (d, c) ↦
      unfold stop_screen_share in
      rw (c, stop_screen_share)
        (inr (record {
          streams = h.streams;
          on = o;
          unseen = if_true m.streaming none m.video h.streams;
          unshared = refl;
          waiting = AllGet-each_none m.video_off h.track 0 m.legs h.given;
        }))
]

share_ends-IsCommon :
    (cam : Option ℕ) (m : Media)
    → m.video_off ≡ false
    → IsNew cam m
    → IsCommon m
    → IsCommon (stop_screen_share cam m)
share_ends-IsCommon none m o n (inl h) = share_ends-IsDark m o h
share_ends-IsCommon (some t) m o n (inl h) = inl (share_ends-IsShared t m o n h)
share_ends-IsCommon cam m o n (inr h) =
    unfold stop_screen_share in rw (h.unshared, stop_screen_share) (inr h)

mutes-IsDark : (m : Media) → IsDark m → IsDark (toggle_mute m).1
unfolding toggle_mute
mutes-IsDark m h = record {
  streams = ground (arith, h.streams);
  on = ground (arith, h.on);
  unseen = ground (arith, h.unseen);
  unshared = ground (arith, h.unshared);
  waiting = let e : (toggle_mute m).1.legs ≡ m.legs = ground arith in rw e h.waiting;
}

-- The button for the video does nothing while there is no track.
toggles-IsDark : (m : Media) → IsDark m → IsDark (toggle_video m).1
toggles-IsDark m h =
    let e : (toggle_video m).1 ≡ m = unfold toggle_video in rw (h.streams, h.unseen, h.on) refl in
    subst IsDark (sym e) h

leaves-IsDark : (k : Text) (m : Media) → IsDark m → IsDark (record m { legs = close_peer k m.legs })
leaves-IsDark k m h = record {
  streams = h.streams;
  on = h.on;
  unseen = h.unseen;
  unshared = h.unshared;
  waiting = AllGet-close_peer true 0 k m.legs h.waiting;
}

step-IsCommon : (m n : Media) → Step m n → IsCommon m → IsCommon n
step-IsCommon _ _ (joins k v m e) (inl h) = inl (joins-IsShared k m h)
step-IsCommon _ _ (joins k v m e) (inr h) = absurd (cc (h.unseen, e))
step-IsCommon _ _ (leaves k m) (inl h) = inl (leaves-IsShared k m h)
step-IsCommon _ _ (leaves k m) (inr h) = inr (leaves-IsDark k m h)
step-IsCommon _ _ (mutes m) (inl h) = inl (mutes-IsShared m h)
step-IsCommon _ _ (mutes m) (inr h) = inr (mutes-IsDark m h)
step-IsCommon _ _ (toggles m) (inl h) = inl (toggles-IsShared m h)
step-IsCommon _ _ (toggles m) (inr h) = inr (toggles-IsDark m h)
step-IsCommon _ _ (shares t m c n) (inl h) =
    inl (shares-IsShared t m c n m.video_off h.track h.given h.streams)
step-IsCommon _ _ (shares t m c n) (inr h) =
    inl (shares-IsShared t m c n true 0 h.waiting h.streams)
step-IsCommon _ _ (refuses m c) h =
    let e : (toggle_screen_share none none m).1 ≡ m =
      unfold toggle_screen_share in ground (arith, c) in
    subst IsCommon (sym e) h
step-IsCommon _ _ (share_ends cam m o n) h = share_ends-IsCommon cam m o n h

-- However members come and go, also in the middle of a share, and whatever is given or refused, also
-- the camera at the end of a share, as long as the sharing does not end with the video off, nobody
-- joins while there is no track, and each prompt that is answered gives a new track: with the video on,
-- every member with a connection gets the very track that the user sees, which runs; with the video
-- off that track is kept, so that turning the video on gives it to all; or there is no track, and
-- every member has a sender for the next one.
pub same_for_all : (m n : Media) → Steps m n → IsCommon m → IsCommon n
same_for_all _ _ (done m) h = h
same_for_all _ _ (more l m n s r) h = same_for_all m n r (step-IsCommon l m s h)
