-- ===== src/Group/Media/Senders.antt =====
-- The video senders of all members (`web/group_call.js`).
use tele.Prelude.{
  ℕ, ◌≡◌, refl, inl, inr, Bool, true, false, Option, none, some, List, [], ◌∷◌, Bool-cases, ◌===◌,
}
use tele.Bytes.{Text}
use tele.Group.Media.{each_video_sender, close_peer}
use tele.Call.Media.{Sender, replace_any}

-- What the sender of a member has, when the video is off and when it is on.
abbrev pub Gets : Bool → ℕ → Option Sender → Type 0
Gets false t s = s ≡ some (some t)
Gets true t none = ⊥
Gets true t (some s) = Unit {0}

abbrev pub AllGet : Bool → ℕ → List (Text × Option Sender) → Type 0
AllGet off t [] = Unit {0}
AllGet off t ((k, s) ∷ legs) = Gets off t s × AllGet off t legs

Gets-replace_any :
    (off : Bool) (t u : ℕ) (s : Option Sender)
    → Gets off u s
    → Gets false t (replace_any (some t) s)
Gets-replace_any false t u none h = absurd (cc h)
Gets-replace_any false t u (some s) h = refl
Gets-replace_any true t u none h = absurd h
Gets-replace_any true t u (some s) h = refl

Gets-none :
    (off : Bool) (t u : ℕ) (s : Option Sender) → Gets off t s → Gets true u (replace_any none s)
Gets-none false t u none h = absurd (cc h)
Gets-none false t u (some s) h = tt
Gets-none true t u none h = absurd h
Gets-none true t u (some s) h = tt

pub AllGet-each :
    (off : Bool) (t u : ℕ) (legs : List (Text × Option Sender))
    → AllGet off u legs
    → AllGet false t (each_video_sender (some t) legs)
unfolding each_video_sender
AllGet-each off t u [] h = tt
AllGet-each off t u ((k, s) ∷ legs) h =
    (Gets-replace_any off t u s h.0, AllGet-each off t u legs h.1)

pub AllGet-each_none :
    (off : Bool) (t u : ℕ) (legs : List (Text × Option Sender))
    → AllGet off t legs
    → AllGet true u (each_video_sender none legs)
unfolding each_video_sender
AllGet-each_none off t u [] h = tt
AllGet-each_none off t u ((k, s) ∷ legs) h =
    (Gets-none off t u s h.0, AllGet-each_none off t u legs h.1)

pub AllGet-close_peer :
    (off : Bool) (t : ℕ) (k : Text) (legs : List (Text × Option Sender))
    → AllGet off t legs
    → AllGet off t (close_peer k legs)
unfolding close_peer
AllGet-close_peer off t k [] h = tt
AllGet-close_peer off t k ((j, s) ∷ legs) h = elim (Bool-cases (j === k)) [
  | inl e ↦ rw e (AllGet-close_peer off t k legs h.1)
  | inr e ↦ rw e (h.0, AllGet-close_peer off t k legs h.1)
]

pub Gets-new : (off : Bool) (t : ℕ) → Gets off t (some (some t))
Gets-new false t = refl
Gets-new true t = tt
