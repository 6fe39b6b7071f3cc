-- ===== src/Book/Unban.antt =====
-- What is left of a contact after a ban that is lifted (`web/app.js`).
use tele.Prelude.{
  ◌≡◌, refl, sym, ◌∙◌, inl, inr, false, Option, none, some, List, [], ◌∷◌, ◌++◌, arith,
  if◌then◌else◌, Bool-cases, ◌===◌, ===_refl,
}
use tele.Bytes.{Text}
use tele.Table.{lookup, delete, lookup-delete, lookup-delete_self}
use tele.Keys.{Ban, or_null, set, lookup-set}
use tele.Book.{
  Peer, peer_added, Book, emit, persist, is_banned, find_ban, without_ban, forget, leave_chat,
  ban_of, with_ban, ban_contact, restore_contact, unban_contact,
}
use tele.Book.Bans.Frames.{subscribe_all-peers}

or_null_again : (o : Option Text) → or_null (or_null o) ≡ or_null o
or_null_again none = refl
or_null_again (some []) = refl
or_null_again (some (c ∷ s)) = refl

module _ (id : Text) (p : Peer) (b : Book) where
  -- The blacklist when a ban is lifted at once.
  with_without :
      (bans : List Ban)
      → is_banned id bans ≡ false
      → without_ban id (bans ++ (ban_of id (some p) ∷ [])) ≡ bans
  unfolding without_ban is_banned ban_of
  with_without [] h = rw (===_refl id) refl
  with_without (e ∷ bans) h = elim (Bool-cases (e.id === id)) [
    | inl t ↦ absurd (ground (arith, t))
    | inr f ↦ rw (f, with_without bans (ground (arith, f))) refl
  ]

  find_new :
      (bans : List Ban)
      → is_banned id bans ≡ false
      → find_ban id (bans ++ (ban_of id (some p) ∷ [])) ≡ some (ban_of id (some p))
  unfolding find_ban is_banned ban_of
  find_new [] h = rw (===_refl id) refl
  find_new (e ∷ bans) h = elim (Bool-cases (e.id === id)) [
    | inl t ↦ absurd (ground (arith, t))
    | inr f ↦ rw (f, find_new bans (ground (arith, f))) refl
  ]

  leave_chat_same :
      (c : Book) → ((leave_chat id c).peers ≡ c.peers) × ((leave_chat id c).blacklist ≡ c.blacklist)
  leave_chat_same c = ground arith

  ban_contact_lem :
      lookup id b.peers ≡ some p
      → is_banned id b.blacklist ≡ false
      → ((ban_contact id b).peers ≡ delete id b.peers)
        × ((ban_contact id b).blacklist ≡ b.blacklist ++ (ban_of id (some p) ∷ []))
  unfolding ban_contact forget persist with_ban
  ban_contact_lem h f =
      let bans = with_ban id (lookup id b.peers) b.blacklist in
      let saved = if is_banned id b.blacklist then b.saved_bans else bans in
      let c = forget id (record b { blacklist = bans; saved_bans = saved }) in
      let (e0, e1) = leave_chat_same (persist (record c { peers = delete id c.peers })) in
      let e2 : bans ≡ b.blacklist ++ (ban_of id (some p) ∷ []) = rw (h, f, with_ban) refl in
      (e0, e1 ∙ e2)

  -- The contact as an unban writes it.
  abbrev pub again : Peer
  again = record { qr = p.qr; label = or_null p.label; type = none; online = false }

  restore_contact_lem :
      (c : Book)
      → or_null (some p.qr) ≡ some p.qr
      → ((restore_contact id (some (ban_of id (some p))) c).peers ≡ set id again c.peers)
        × ((restore_contact id (some (ban_of id (some p))) c).blacklist ≡ c.blacklist)
  unfolding restore_contact ban_of persist
  restore_contact_lem c h =
      let c' = persist (emit (peer_added p.qr) (record c { peers = set id again c.peers })) in
      let (e0, e1) = subscribe_all-peers c' in
      rw (h, h, restore_contact, or_null_again p.label) (sym e0, sym e1)

  -- A contact with a code is banned and unbanned: he is in the list again, offline and without his
  -- type, all others are as they were, and so is the blacklist. In between he is not in the list.
  pub unban_contact-ban_contact :
      (k : Text)
      → lookup id b.peers ≡ some p
      → is_banned id b.blacklist ≡ false
      → or_null (some p.qr) ≡ some p.qr
      → let c = ban_contact id b in
        (lookup id c.peers ≡ none)
        × ((unban_contact id c).blacklist ≡ b.blacklist)
        × (lookup k (unban_contact id c).peers
            ≡ (if id === k then some again else lookup k b.peers))
  unfolding unban_contact
  unban_contact-ban_contact k h f hq =
      let (e0, e1) = ban_contact_lem h f in
      let c = ban_contact id b in
      let bans = without_ban id c.blacklist in
      let found : find_ban id c.blacklist ≡ some (ban_of id (some p)) =
        rw e1 (find_new b.blacklist f) in
      let rest : bans ≡ b.blacklist = rw e1 (with_without b.blacklist f) in
      let (g0, g1) = restore_contact_lem (record c { blacklist = bans; saved_bans = bans }) hq in
      (
        rw (e0, lookup-delete_self id b.peers) refl,
        rw found (g1 ∙ rest),
        rw (found, g0, lookup-set id k again c.peers, e0, lookup-delete id k b.peers) (grind arith),
      )
