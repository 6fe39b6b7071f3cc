-- ===== src/Inbox/Delivery/Safety.antt =====
-- What holds of both pages at every time.
use mathlib.Core.Path.{subst}
use tele.Prelude.{◌≡◌, ◌∙◌, inl, inr, Bool, true, false, Option, none, some, List, [], ◌∷◌, All}
use tele.Bytes.{Text}
use tele.Table.{lookup}
use tele.Storage.{Store}
use tele.Inbox.{
  Out, text_out, edit_out, delivery_ack_out, read_ack_out, delete_out, introduce_out, wake_out,
  mailbox_out, Watch, Page,
}
use tele.Inbox.Delivery.{Pair, In}
use tele.Inbox.Delivery.Bodies.{body_at}
use tele.Inbox.Delivery.Settled.{settled}

abbrev pub is_some : Option Text → Bool
is_some none = false
is_some (some t) = true

-- A text that goes out is that of a stored message.
abbrev pub IsClaimed : Store → Out → Type 0
IsClaimed s (text_out p id t) = body_at id s ≡ some t
IsClaimed s _ = Unit {0}

-- What is acknowledged or read is stored.
abbrev pub IsHeld : Store → Out → Type 0
IsHeld s (delivery_ack_out p id) = is_some (body_at id s) ≡ true
IsHeld s (read_ack_out p id) = is_some (body_at id s) ≡ true
IsHeld s _ = Unit {0}

abbrev pub IsWatched : Option Text → Option Watch → Type 0
IsWatched b none = Unit {0}
IsWatched b (some w) = b ≡ some w.text

pub record Inv (w : Pair) : Type 0 where
  pub from_persists : w.from.persists ≡ true
  pub to_persists : w.to.persists ≡ true
  pub claimed : All (IsClaimed w.from.store) w.from.outs
  pub held : All (IsHeld w.to.store) w.to.outs
  pub watched : (k : Text) → IsWatched (body_at k w.from.store) (lookup k w.from.pending_delivery)
  pub arrived : (k t : Text) → body_at k w.to.store ≡ some t → body_at k w.from.store ≡ some t
  pub done : (k : Text) → settled k w.from.store ≡ true → is_some (body_at k w.to.store) ≡ true

pub In-IsClaimed :
    (s : Store) (p id t : Text) (outs : List Out)
    → All (IsClaimed s) outs
    → In (text_out p id t) outs
    → body_at id s ≡ some t
In-IsClaimed s p id t [] h i = absurd i
In-IsClaimed s p id t (o ∷ outs) h (inl e) = subst (IsClaimed s) e h.0
In-IsClaimed s p id t (o ∷ outs) h (inr i) = In-IsClaimed s p id t outs h.1 i

pub In-IsHeld :
    (s : Store) (o : Out) (outs : List Out) → All (IsHeld s) outs → In o outs → IsHeld s o
In-IsHeld s o [] h i = absurd i
In-IsHeld s o (x ∷ outs) h (inl e) = subst (IsHeld s) e h.0
In-IsHeld s o (x ∷ outs) h (inr i) = In-IsHeld s o outs h.1 i

-- Claims last while no text changes.
pub IsClaimed-mono :
    (s s' : Store) (outs : List Out)
    → ((k t : Text) → body_at k s ≡ some t → body_at k s' ≡ some t)
    → All (IsClaimed s) outs
    → All (IsClaimed s') outs
IsClaimed-mono s s' [] f h = tt
IsClaimed-mono s s' (text_out p id t ∷ outs) f h = (f id t h.0, IsClaimed-mono s s' outs f h.1)
IsClaimed-mono s s' (edit_out p id t ∷ outs) f h = (tt, IsClaimed-mono s s' outs f h.1)
IsClaimed-mono s s' (delivery_ack_out p id ∷ outs) f h = (tt, IsClaimed-mono s s' outs f h.1)
IsClaimed-mono s s' (read_ack_out p id ∷ outs) f h = (tt, IsClaimed-mono s s' outs f h.1)
IsClaimed-mono s s' (delete_out p id ∷ outs) f h = (tt, IsClaimed-mono s s' outs f h.1)
IsClaimed-mono s s' (introduce_out p ∷ outs) f h = (tt, IsClaimed-mono s s' outs f h.1)
IsClaimed-mono s s' (wake_out p ∷ outs) f h = (tt, IsClaimed-mono s s' outs f h.1)
IsClaimed-mono s s' (mailbox_out p id t ∷ outs) f h = (tt, IsClaimed-mono s s' outs f h.1)

pub IsHeld-mono :
    (s s' : Store) (outs : List Out)
    → ((k : Text) → is_some (body_at k s) ≡ true → is_some (body_at k s') ≡ true)
    → All (IsHeld s) outs
    → All (IsHeld s') outs
IsHeld-mono s s' [] f h = tt
IsHeld-mono s s' (text_out p id t ∷ outs) f h = (tt, IsHeld-mono s s' outs f h.1)
IsHeld-mono s s' (edit_out p id t ∷ outs) f h = (tt, IsHeld-mono s s' outs f h.1)
IsHeld-mono s s' (delivery_ack_out p id ∷ outs) f h = (f id h.0, IsHeld-mono s s' outs f h.1)
IsHeld-mono s s' (read_ack_out p id ∷ outs) f h = (f id h.0, IsHeld-mono s s' outs f h.1)
IsHeld-mono s s' (delete_out p id ∷ outs) f h = (tt, IsHeld-mono s s' outs f h.1)
IsHeld-mono s s' (introduce_out p ∷ outs) f h = (tt, IsHeld-mono s s' outs f h.1)
IsHeld-mono s s' (wake_out p ∷ outs) f h = (tt, IsHeld-mono s s' outs f h.1)
IsHeld-mono s s' (mailbox_out p id t ∷ outs) f h = (tt, IsHeld-mono s s' outs f h.1)

-- The sender's storage changes without a change of texts; `done` is the part left to show.
pub same_bodies-Inv :
    (w : Pair) (p : Page)
    → Inv w
    → p.persists ≡ true
    → ((k : Text) → body_at k p.store ≡ body_at k w.from.store)
    → All (IsClaimed p.store) p.outs
    → ((k : Text) → IsWatched (body_at k p.store) (lookup k p.pending_delivery))
    → ((k : Text) → settled k p.store ≡ true → is_some (body_at k w.to.store) ≡ true)
    → Inv (record w { from = p })
same_bodies-Inv w p h hp hb hc hw hd = record {
  from_persists = hp;
  to_persists = h.to_persists;
  claimed = hc;
  held = h.held;
  watched = hw;
  arrived = λ k t e. hb k ∙ h.arrived k t e;
  done = hd;
}
