-- ===== src/Inbox/Delivery/Shown.antt =====
-- How many texts of a peer onText of `web/app.js` has shown, on a page of the two.
use tele.Prelude.{
  ℕ, ◌+◌, ◌≡◌, refl, inl, inr, Bool, true, false, Option, none, some, arith, if◌then◌else◌,
  Bool-cases, Option-cases, ===_refl, length,
}
use tele.Bytes.{Text}
use tele.Storage.{Store, save_incoming}
use tele.Chat.{count}
use tele.Chat.Counts.{count-bump}
use tele.Book.{is_banned}
use tele.Inbox.{Page, is_current, show_text, on_text}
use tele.Inbox.Delivery.Bodies.{body_at}

-- The texts of a peer that were shown: those that count as unread and those that were read.
abbrev pub shown : Text → Page → ℕ
shown k p = count k p.unread + length p.read_acked

shown-show_text : (k id : Text) (p : Page) → shown k (show_text k id p) ≡ shown k p + 1
unfolding show_text
shown-show_text k id p = elim (Bool-cases (is_current k p.current)) [
  | inl e ↦ rw (e, show_text) (omega arith)
  | inr e ↦ rw (e, show_text, count-bump k k p.unread, ===_refl k) (omega arith)
]

abbrev fresh_of : Option Text → Bool
fresh_of none = true
fresh_of (some t) = false

save_incoming-fresh :
    (from_id id text : Text) (now : ℕ) (s : Store)
    → (save_incoming from_id id text now now s).0 ≡ fresh_of (body_at id s)
unfolding save_incoming
save_incoming-fresh from_id id text now s = ground arith

-- A text is shown when it is the first of its id, and its sender is not banned.
pub shown-on_text :
    (from_id id text : Text) (now : ℕ) (p : Page)
    → p.persists ≡ true
    → shown from_id (on_text from_id id text now p) ≡ (
        if is_banned from_id p.blacklist
        then shown from_id p
        else elim (body_at id p.store) [ none ↦ shown from_id p + 1 | some t ↦ shown from_id p ])
unfolding on_text
shown-on_text from_id id text now p h = elim (Bool-cases (is_banned from_id p.blacklist)) [
  | inl f ↦ rw (f, on_text) refl
  | inr f ↦ elim (Option-cases (body_at id p.store)) [
    | inl e ↦
        rw (f, on_text, h, save_incoming-fresh from_id id text now p.store, e)
          (shown-show_text from_id id _)
    | inr (t, e) ↦ rw (f, on_text, h, save_incoming-fresh from_id id text now p.store, e) refl
  ]
]
