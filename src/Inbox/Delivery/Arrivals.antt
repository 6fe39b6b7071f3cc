-- ===== src/Inbox/Delivery/Arrivals.antt =====
-- A text that reaches the receiver, perhaps again, keeps the invariant of the two pages.
use mathlib.Core.Option.{some-injective}
use mathlib.Core.Path.{subst}
use tele.Prelude.{
  ℕ, ◌≡◌, refl, sym, ap, ◌∙◌, ◌⊎◌, inl, inr, Bool, true, false, Option, none, some, arith,
  if◌then◌else◌, Bool-cases, ◌===◌, ===_refl, ===_iff, All,
}
use tele.Bytes.{Text}
use tele.Storage.{Store, save_incoming}
use tele.Book.{is_banned}
use tele.Inbox.{text_out, Page, is_current, show_text, on_text}
use tele.Inbox.Delivery.{Pair, In}
use tele.Inbox.Delivery.Bodies.{body_at, first, first_wins, body_at-save_incoming}
use tele.Inbox.Delivery.Safety.{is_some, IsHeld, Inv, In-IsClaimed, IsHeld-mono}

module _ (from_id id text : Text) (now : ℕ) (p : Page) where
  on_text-persists : (on_text from_id id text now p).persists ≡ p.persists
  unfolding on_text show_text
  on_text-persists = ground arith

  -- The storage of the receiver, unless the sender is banned.
  pub on_text-store :
      p.persists ≡ true
      → (on_text from_id id text now p).store ≡ (
          if is_banned from_id p.blacklist
          then p.store
          else (save_incoming from_id id text now now p.store).1)
  unfolding on_text show_text
  on_text-store h = ground arith

  on_text-outs :
      (s : Store)
      → All (IsHeld s) p.outs
      → (is_banned from_id p.blacklist ≡ false → is_some (body_at id s) ≡ true)
      → All (IsHeld s) (on_text from_id id text now p).outs
  unfolding on_text show_text
  on_text-outs s h b = elim (Bool-cases (is_banned from_id p.blacklist)) [
    | inl e ↦ rw e h
    | inr e ↦
        elim (Bool-cases
          (if p.persists then (save_incoming from_id id text now now p.store).0 else true)) [
            | inl n ↦ elim (Bool-cases (is_current from_id p.current)) [
              | inl c ↦ rw (e, n, c) (b e, (b e, h))
              | inr c ↦ rw (e, n, c) (b e, h)
            ]
            | inr n ↦ rw (e, n) (b e, h)
          ]
  ]

  -- What the receiver has for an id afterwards.
  pub body_at-on_text :
      (k : Text)
      → p.persists ≡ true
      → body_at k (on_text from_id id text now p).store ≡ (
          if is_banned from_id p.blacklist then body_at k p.store else first_wins id text k p.store)
  body_at-on_text k h = elim (Bool-cases (is_banned from_id p.blacklist)) [
    | inl e ↦ ap (body_at k) (on_text-store h) ∙ rw e refl
    | inr e ↦
        ap (body_at k) (on_text-store h)
        ∙ rw e (body_at-save_incoming from_id id text now now k p.store)
  ]

first_some :
    (old : Option Text) (same : Bool) (text : Text) (b : Option Text)
    → is_some b ≡ true
    → is_some (first old same text b) ≡ true
first_some none true text b h = refl
first_some none false text b h = h
first_some (some old) same text b h = h

first_here : (old : Option Text) (text : Text) → is_some (first old true text old) ≡ true
first_here none text = refl
first_here (some old) text = refl

-- The text is the new one of this id, or was there before.
pub first_from :
    (old : Option Text) (same : Bool) (text : Text) (b : Option Text) (t : Text)
    → first old same text b ≡ some t
    → (same ≡ true) × (text ≡ t) ⊎ (b ≡ some t)
first_from none true text b t h = inl (refl, some-injective _ _ h)
first_from none false text b t h = inr h
first_from (some old) same text b t h = inr h

module _ (from_id to_id id text : Text) (now : ℕ) (w : Pair) (h : Inv w)
    (i : In (text_out to_id id text) w.from.outs) where
  abbrev after : Page
  after = on_text from_id id text now w.to

  more : (k : Text) → is_some (body_at k w.to.store) ≡ true → is_some (body_at k after.store) ≡ true
  more k e = elim (Bool-cases (is_banned from_id w.to.blacklist)) [
    | inl f ↦ ap is_some (body_at-on_text from_id id text now w.to k h.to_persists ∙ rw f refl) ∙ e
    | inr f ↦
        ap is_some (body_at-on_text from_id id text now w.to k h.to_persists ∙ rw f refl)
        ∙ first_some (body_at id w.to.store) (id === k) text (body_at k w.to.store) e
  ]

  here : is_banned from_id w.to.blacklist ≡ false → is_some (body_at id after.store) ≡ true
  here f =
      ap is_some
        (body_at-on_text from_id id text now w.to id h.to_persists ∙ rw (f, ===_refl id) refl)
      ∙ first_here (body_at id w.to.store) text

  back : (k t : Text) → body_at k after.store ≡ some t → body_at k w.from.store ≡ some t
  back k t q = elim (Bool-cases (is_banned from_id w.to.blacklist)) [
    | inl f ↦
        h.arrived k t
          (sym (body_at-on_text from_id id text now w.to k h.to_persists ∙ rw f refl) ∙ q)
    | inr f ↦
        elim (first_from (body_at id w.to.store) (id === k) text (body_at k w.to.store) t
          (sym (body_at-on_text from_id id text now w.to k h.to_persists ∙ rw f refl) ∙ q)) [
            | inl (same, e) ↦
                subst (λ (j : Text). body_at j w.from.store ≡ some t) ((===_iff id k).0 same)
                  (In-IsClaimed w.from.store to_id id text w.from.outs h.claimed i
                    ∙ ap (λ (u : Text). some u) e)
            | inr e ↦ h.arrived k t e
          ]
  ]

  pub on_text-Inv : Inv (record w { to = on_text from_id id text now w.to })
  on_text-Inv = record {
    from_persists = h.from_persists;
    to_persists = on_text-persists from_id id text now w.to ∙ h.to_persists;
    claimed = h.claimed;
    held =
        on_text-outs from_id id text now w.to after.store
          (IsHeld-mono w.to.store after.store w.to.outs more h.held) here;
    watched = h.watched;
    arrived = back;
    done = λ k q. more k (h.done k q);
  }
