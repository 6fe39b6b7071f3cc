-- ===== src/Book/Bans.antt =====
-- The blacklist of `web/app.js` against the contact list.

pub mod Frames
use tele.Prelude.{
  ℕ, ◌≡◌, refl, sym, ◌∙◌, inl, inr, true, false, not, ◌&&◌, ◌||◌, Option, none, some, List, [], ◌∷◌,
  ◌++◌, arith, Bool-cases, Option-cases, ◌===◌, ===_refl, ===_iff,
}
use tele.Bytes.{Text, Bytes}
use tele.Table.{lookup, delete, lookup-delete}
use tele.Keys.{Ban, or_null}
use tele.Book.{
  Peer, peer_added, Book, persist, is_banned, find_ban, without_ban, forget, leave_chat, ban_of,
  with_ban, ban_contact, restore_contact, unban_contact, delete_contact, rename_contact,
}
use tele.Book.Server.{on_server}
use tele.Book.Bans.Frames.{
  Inv, same-Inv, subscribe_all-Inv, persist-Inv, emit-Inv, set-Inv, over-Inv, on_server-Inv,
}

leave_chat-peers :
    (id : Text) (b : Book)
    → (b.peers ≡ (leave_chat id b).peers) × (b.blacklist ≡ (leave_chat id b).blacklist)
leave_chat-peers id b = ground arith

leave_chat-Inv : (id : Text) (b : Book) → Inv b → Inv (leave_chat id b)
leave_chat-Inv id b h = let (e, f) = leave_chat-peers id b in same-Inv b (leave_chat id b) e f h

forget-Inv : (id : Text) (b : Book) → Inv b → Inv (forget id b)
unfolding forget
forget-Inv id b h = record { at = h.at }

is_banned-append :
    (k : Text) (xs ys : List Ban) → is_banned k (xs ++ ys) ≡ (is_banned k xs || is_banned k ys)
unfolding is_banned
is_banned-append k [] ys = refl
is_banned-append k (e ∷ xs) ys = ground (arith, is_banned-append k xs ys)

ban_of-id : (id : Text) (p : Option Peer) → (ban_of id p).id ≡ id
unfolding ban_of
ban_of-id id none = refl
ban_of-id id (some p) = refl

pub is_banned-with_ban :
    (id k : Text) (p : Option Peer) (bans : List Ban)
    → is_banned k (with_ban id p bans) ≡ (is_banned k bans || id === k)
unfolding with_ban is_banned
is_banned-with_ban id k p bans = elim (Bool-cases (is_banned id bans)) [
  | inl e ↦ rw (e, with_ban) (grind (arith, ===_iff id k, e))
  | inr e ↦
      rw (e, with_ban, is_banned-append k bans (ban_of id p ∷ []), ban_of-id id p) (ground arith)
]

pub is_banned-without_ban :
    (id k : Text) (bans : List Ban)
    → is_banned k (without_ban id bans) ≡ (is_banned k bans && not (id === k))
unfolding is_banned without_ban
is_banned-without_ban id k [] = refl
is_banned-without_ban id k (e ∷ bans) = grind (arith, is_banned-without_ban id k bans, ===_iff)

-- A contact that is taken out, while at most its own id is added to the blacklist.
taken_out-Inv :
    (id : Text) (b c : Book)
    → c.peers ≡ delete id b.peers
    → ((k : Text) → is_banned k c.blacklist ≡ true → (is_banned k b.blacklist || id === k) ≡ true)
    → Inv b
    → Inv c
taken_out-Inv id b c e f h = record {
  at = λ k hk. rw (e, lookup-delete id k b.peers) (grind (arith, h.at k, f k hk));
}

ban_contact-Inv : (id : Text) (b : Book) → Inv b → Inv (ban_contact id b)
unfolding ban_contact forget persist
ban_contact-Inv id b h = leave_chat-Inv id _ (
    taken_out-Inv id b _ refl
      (λ k hk. sym (is_banned-with_ban id k (lookup id b.peers) b.blacklist) ∙ hk) h)

restore_contact-Inv :
    (id : Text) (e : Option Ban) (b : Book)
    → is_banned id b.blacklist ≡ false
    → Inv b
    → Inv (restore_contact id e b)
unfolding restore_contact
restore_contact-Inv id none b f h = h
restore_contact-Inv id (some e) b f h = elim (Option-cases (or_null e.qr)) [
  | inl q ↦ rw (q, restore_contact) h
  | inr (qr, q) ↦
      rw (q, restore_contact)
        (subscribe_all-Inv _ (persist-Inv _ (emit-Inv (peer_added qr) _ (set-Inv id _ b f h))))
]

unban_contact-Inv : (id : Text) (b : Book) → Inv b → Inv (unban_contact id b)
unfolding unban_contact
unban_contact-Inv id b h =
    restore_contact-Inv id (find_ban id b.blacklist) _
      (rw (is_banned-without_ban id id b.blacklist, ===_refl id) (ground arith))
      (record { at = λ k hk. h.at k (grind (arith, is_banned-without_ban id k b.blacklist, hk)) })

delete_contact-Inv : (id : Text) (b : Book) → Inv b → Inv (delete_contact id b)
unfolding delete_contact forget persist
delete_contact-Inv id b h = elim (Option-cases (lookup id b.peers)) [
  | inl e ↦ rw (e, delete_contact) h
  | inr (p, e) ↦
      rw (e, delete_contact)
        (leave_chat-Inv id (forget id (persist (record b { peers = delete id b.peers })))
          (taken_out-Inv id b _ refl (λ k hk. rw hk refl) h))
]

rename_contact-Inv : (id value : Text) (b : Book) → Inv b → Inv (rename_contact id value b)
unfolding rename_contact
rename_contact-Inv id value b h = elim (Option-cases (lookup id b.peers)) [
  | inl e ↦ rw (e, rename_contact) h
  | inr (p, e) ↦ rw (e, rename_contact) (persist-Inv _ (over-Inv id p _ b e h))
]

-- What the server sends, and what the user does to a contact that is there or banned.
pub data Event : Type 0 where
  server : ℕ → Bytes → Event
  ban unban remove : Text → Event
  rename : Text → Text → Event

module _ (decode : Bytes → Text) (lower : Text → Text)
    (add_peer : Bytes → Bytes → Option Bytes) where
  unfoldable pub run : List Event → Book → Book
  run [] b = b
  run (server cmd body ∷ es) b = run es (on_server decode lower add_peer cmd body b)
  run (ban id ∷ es) b = run es (ban_contact id b)
  run (unban id ∷ es) b = run es (unban_contact id b)
  run (remove id ∷ es) b = run es (delete_contact id b)
  run (rename id value ∷ es) b = run es (rename_contact id value b)

  -- If nobody is both banned and a contact, that stays so whatever the server sends and whomever the
  -- user bans, unbans, deletes or renames: a banned peer does not come back into the contact list by
  -- an introduction. The two ways by which the user adds a contact himself, the dialog for a code and
  -- the import of an account, are not among these events.
  pub banned_stays_out : (es : List Event) (b : Book) → Inv b → Inv (run es b)
  unfolding run
  banned_stays_out [] b h = h
  banned_stays_out (server cmd body ∷ es) b h =
      banned_stays_out es _ (on_server-Inv decode lower add_peer cmd body b h)
  banned_stays_out (ban id ∷ es) b h = banned_stays_out es _ (ban_contact-Inv id b h)
  banned_stays_out (unban id ∷ es) b h = banned_stays_out es _ (unban_contact-Inv id b h)
  banned_stays_out (remove id ∷ es) b h = banned_stays_out es _ (delete_contact-Inv id b h)
  banned_stays_out (rename id value ∷ es) b h =
      banned_stays_out es _ (rename_contact-Inv id value b h)
