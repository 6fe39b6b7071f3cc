-- ===== src/Book/Bans/Frames.antt =====
-- What the frames of the relay do to the contact list of `web/app.js`, against the blacklist.
use tele.Prelude.{
  ℕ, ◌/◌, ◌≡◌, inl, inr, Bool, true, false, ◌&&◌, Option, none, some, List, [], ◌∷◌, arith, ltb,
  leb, ◌==◌, Bool-cases, Option-cases, ===_iff, length, take, slice,
}
use tele.Bytes.{Text, Bytes, hex_of}
use tele.Table.{lookup}
use tele.Keys.{set, lookup-set}
use tele.Book.{Peer, Effect, added_you, Book, emit, persist, subscribe_all, is_banned, set_online}
use tele.Wire.Codes.{cmd_peer_online, cmd_peer_offline}
use tele.Book.Server.{
  cmd_intro_from, cmd_error, err_recipient_offline, keys_of, peers_online, peers_offline,
  recipient_offline, head_is, intro_entry, accept_intro, handle_intro_from, on_server,
}

-- Nobody is both banned and a contact.
pub record Inv (b : Book) : Type 0 where
  pub at : (k : Text) → is_banned k b.blacklist ≡ true → lookup k b.peers ≡ none

-- A book with the same contacts and the same blacklist.
pub same-Inv : (b c : Book) → b.peers ≡ c.peers → b.blacklist ≡ c.blacklist → Inv b → Inv c
same-Inv b c e f h = record { at = λ k hk. rw (← e) (h.at k (rw f hk)) }

pub subscribe_all-peers :
    (b : Book) → (b.peers ≡ (subscribe_all b).peers) × (b.blacklist ≡ (subscribe_all b).blacklist)
unfolding subscribe_all
subscribe_all-peers b = ground arith

pub subscribe_all-Inv : (b : Book) → Inv b → Inv (subscribe_all b)
subscribe_all-Inv b h = let (e, f) = subscribe_all-peers b in same-Inv b (subscribe_all b) e f h

pub persist-Inv : (b : Book) → Inv b → Inv (persist b)
unfolding persist
persist-Inv b h = record { at = h.at }

pub emit-Inv : (e : Effect) (b : Book) → Inv b → Inv (emit e b)
emit-Inv e b h = record { at = h.at }

-- Writing the entry of an id that is not banned.
pub set-Inv :
    (id : Text) (p : Peer) (b : Book)
    → is_banned id b.blacklist ≡ false
    → Inv b
    → Inv (record b { peers = set id p b.peers })
set-Inv id p b f h = record {
  at = λ k hk. rw (lookup-set id k p b.peers) (grind (arith, h.at k hk, ===_iff id k));
}

-- Writing over an entry.
pub over-Inv :
    (id : Text) (old p : Peer) (b : Book)
    → lookup id b.peers ≡ some old
    → Inv b
    → Inv (record b { peers = set id p b.peers })
over-Inv id old p b e h = elim (Bool-cases (is_banned id b.blacklist)) [
  | inl t ↦ absurd (ground (arith, h.at id t, e))
  | inr f ↦ set-Inv id p b f h
]

set_online-Inv : (x_pub : Bytes) (on : Bool) (b : Book) → Inv b → Inv (set_online x_pub on b)
unfolding set_online
set_online-Inv x_pub on b h = elim (Option-cases (lookup (hex_of (take 8 x_pub)) b.peers)) [
  | inl e ↦ rw (e, set_online) h
  | inr (p, e) ↦ rw (e, set_online) (over-Inv (hex_of (take 8 x_pub)) p _ b e h)
]

peers_online-Inv : (keys : List Bytes) (b : Book) → Inv b → Inv (peers_online keys b)
unfolding peers_online
peers_online-Inv [] b h = h
peers_online-Inv (x ∷ keys) b h =
    peers_online-Inv keys _ (emit-Inv _ _ (emit-Inv _ _ (set_online-Inv x true b h)))

peers_offline-Inv : (keys : List Bytes) (b : Book) → Inv b → Inv (peers_offline keys b)
unfolding peers_offline
peers_offline-Inv [] b h = h
peers_offline-Inv (x ∷ keys) b h = peers_offline-Inv keys _ (set_online-Inv x false b h)

recipient_offline-Inv : (tid : Bytes) (b : Book) → Inv b → Inv (recipient_offline tid b)
unfolding recipient_offline
recipient_offline-Inv tid b h = elim (Option-cases (lookup (hex_of tid) b.peers)) [
  | inl e ↦ rw (e, recipient_offline) h
  | inr (p, e) ↦ elim (Bool-cases p.online) [
    | inl f ↦ rw (e, recipient_offline, f) (emit-Inv _ _ (over-Inv (hex_of tid) p _ b e h))
    | inr f ↦ rw (e, recipient_offline, f) (emit-Inv _ _ h)
  ]
]

module _ (decode : Bytes → Text) (lower : Text → Text)
    (add_peer : Bytes → Bytes → Option Bytes) where
  accept_intro-Inv :
      (id qr : Text) (tag : Text × Option Text) (b : Book)
      → Inv b
      → Inv (accept_intro decode lower add_peer id qr tag b)
  unfolding accept_intro
  accept_intro-Inv id qr tag b h = elim (Bool-cases (is_banned id b.blacklist)) [
    | inl t ↦ rw (t, accept_intro) h
    | inr f ↦
        let h' = subscribe_all-Inv _ (
          persist-Inv _
            (set-Inv id (intro_entry decode lower add_peer qr tag (lookup id b.peers)) b f h)) in
        elim (Option-cases (lookup id b.peers)) [
          | inl e ↦ rw (f, accept_intro, e) (emit-Inv (added_you id) _ h')
          | inr (p, e) ↦ rw (f, accept_intro, e) h'
        ]
  ]

  handle_intro_from-Inv :
      (body : Bytes) (b : Book) → Inv b → Inv (handle_intro_from decode lower add_peer body b)
  unfolding handle_intro_from
  handle_intro_from-Inv body b h = elim (Bool-cases (ltb (length body) 64)) [
    | inl t ↦ rw (t, handle_intro_from) h
    | inr f ↦ elim (Option-cases (add_peer (slice 0 32 body) (slice 32 64 body))) [
      | inl e ↦ rw (f, handle_intro_from, e) h
      | inr (id, e) ↦ rw (f, handle_intro_from, e) (accept_intro-Inv (hex_of id) _ _ b h)
    ]
  ]

  pub on_server-Inv :
      (cmd : ℕ) (body : Bytes) (b : Book) → Inv b → Inv (on_server decode lower add_peer cmd body b)
  unfolding on_server
  on_server-Inv cmd body b h =
      let keys = keys_of (length body / 32) body in
      elim (Bool-cases (cmd == cmd_peer_online)) [
        | inl e ↦ rw (e, on_server) (peers_online-Inv keys b h)
        | inr e ↦ elim (Bool-cases (cmd == cmd_peer_offline)) [
          | inl e2 ↦ rw (e, e2, on_server) (peers_offline-Inv keys b h)
          | inr e2 ↦
              elim (Bool-cases
                (cmd == cmd_error && head_is err_recipient_offline body && leb 9 (length body))) [
                  | inl e3 ↦ rw (e, e2, e3, on_server) (recipient_offline-Inv (slice 1 9 body) b h)
                  | inr e3 ↦ elim (Bool-cases (cmd == cmd_intro_from)) [
                    | inl e4 ↦ rw (e, e2, e3, e4, on_server) (handle_intro_from-Inv body b h)
                    | inr e4 ↦ rw (e, e2, e3, e4, on_server) h
                  ]
                ]
        ]
      ]
