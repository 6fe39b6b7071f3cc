-- ===== src/Book/Reload.antt =====
-- What is left of a contact after a reload of the page (`web/app.js`).
use tele.Prelude.{
  ◌+◌, ◌≡◌, refl, ap, ◌∙◌, inl, inr, true, false, Option, none, some, [], ◌∷◌, ◌++◌, append_assoc,
  arith, ltb, Bool-cases, ◌===◌, ===_refl, length, take, drop, length-append, take-append,
  drop-append,
}
use tele.Bytes.{Text, Bytes, AreBytes, hex_of}
use tele.Table.{Table, lookup}
use tele.Keys.{or_null, load_peers, save_peers, set, lookup-set}
use tele.Book.{Peer, Book, stripped, persist, loaded, subscribe_all, is_banned}
use tele.Keys.Qr.{qr_of, qr_xpub_bytes, qr_xpub_bytes-qr_of}
use tele.Book.Bans.Frames.{subscribe_all-peers}
use tele.Book.Server.{
  cmd_intro_from, split_nick_type, intro_entry, accept_intro, handle_intro_from, on_server,
}

-- The book when the page is loaded again.
unfoldable pub reload : Book → Book
unfolding loaded load_peers
reload b = record {
  peers = loaded (load_peers b.local);
  blacklist = b.saved_bans;
  saved_bans = b.saved_bans;
  local = b.local;
  store = b.store;
  unread = b.unread;
  missed = b.missed;
  current = none;
  effects = [];
}

-- An entry that was saved and loaded.
abbrev pub without_type : Option Peer → Option Peer
without_type none = none
without_type (some p) = some (record p { type = none; online = false })

lookup-loaded-stripped :
    (k : Text) (t : Table Peer) → lookup k (loaded (stripped t)) ≡ without_type (lookup k t)
unfolding loaded stripped lookup
lookup-loaded-stripped k [] = refl
lookup-loaded-stripped k ((id, p) ∷ t) = elim (Bool-cases (id === k)) [
  | inl e ↦ rw e refl
  | inr e ↦ rw e (lookup-loaded-stripped k t)
]

-- The book was saved as it is.
abbrev pub IsSaved : Book → Type 0
IsSaved b = load_peers b.local ≡ stripped b.peers

lookup-reload :
    (k : Text) (b : Book) → IsSaved b → lookup k (reload b).peers ≡ without_type (lookup k b.peers)
unfolding reload
lookup-reload k b h = rw h (lookup-loaded-stripped k b.peers)

persist-IsSaved : (b : Book) → IsSaved (persist b)
unfolding persist load_peers save_peers
persist-IsSaved b = refl

subscribe_all-local : (b : Book) → (subscribe_all b).local ≡ b.local
unfolding subscribe_all
subscribe_all-local b = ground arith

subscribe_all-IsSaved : (b : Book) → IsSaved b → IsSaved (subscribe_all b)
subscribe_all-IsSaved b h = let (e, f) = subscribe_all-peers b in rw (subscribe_all-local b, ← e) h

module _ (decode : Bytes → Text) (lower : Text → Text)
    (add_peer : Bytes → Bytes → Option Bytes) where
  accept_intro_new :
      (id qr : Text) (tag : Text × Option Text) (b : Book)
      → is_banned id b.blacklist ≡ false
      → lookup id b.peers ≡ none
      → (lookup id (accept_intro decode lower add_peer id qr tag b).peers
          ≡ some (record {
            qr = qr;
            label = or_null (some tag.0);
            type = or_null tag.1;
            online = true;
          }))
        × IsSaved (accept_intro decode lower add_peer id qr tag b)
  accept_intro_new id qr (nick, ty) b hb h =
      let p : Peer = record {
        qr = qr;
        label = or_null (some nick);
        type = or_null ty;
        online = true;
      } in
      let c = persist (record b { peers = set id p b.peers }) in
      let (e, f) = subscribe_all-peers c in
      let new : intro_entry decode lower add_peer qr (nick, ty) (lookup id b.peers) ≡ p =
        unfold intro_entry in rw h refl in
      let at : lookup id c.peers ≡ some p =
        unfold persist in rw (lookup-set id id p b.peers, ===_refl id) refl in
      unfold accept_intro in
      rw (hb, h, new)
        (
          rw (← e) at,
          subscribe_all-IsSaved c (persist-IsSaved (record b { peers = set id p b.peers })),
        )

  -- A frame of an introduction is cut into its two keys and the name.
  on_server_intro :
      (x_pub ed_pub nick id : Bytes) (b : Book)
      → length x_pub ≡ 32
      → length ed_pub ≡ 32
      → add_peer x_pub ed_pub ≡ some id
      → on_server decode lower add_peer cmd_intro_from (x_pub ++ ed_pub ++ nick) b
        ≡ accept_intro decode lower add_peer
            (hex_of id)
            (qr_of x_pub ed_pub)
            (split_nick_type decode lower add_peer (decode nick))
            b
  unfolding on_server handle_intro_from
  on_server_intro x_pub ed_pub nick id b nx ne ha =
      let body = x_pub ++ ed_pub ++ nick in
      let n : length body ≡ 64 + length nick =
        rw (length-append (x_pub ++ ed_pub) nick, length-append x_pub ed_pub) (omega arith) in
      let long : ltb (length body) 64 ≡ false = rw n (ground arith) in
      let assoc : body ≡ x_pub ++ (ed_pub ++ nick) = append_assoc x_pub ed_pub nick in
      let k0 : take 32 body ≡ x_pub = rw assoc (take-append 32 x_pub (ed_pub ++ nick) nx) in
      let d0 : drop 32 body ≡ ed_pub ++ nick =
        rw assoc (drop-append 32 x_pub (ed_pub ++ nick) nx) in
      let k1 : take 32 (drop 32 body) ≡ ed_pub = rw d0 (take-append 32 ed_pub nick ne) in
      let d1 : drop 64 body ≡ nick =
        drop-append 64 (x_pub ++ ed_pub) nick (rw (length-append x_pub ed_pub) (omega arith)) in
      rw (long, handle_intro_from, k0, k1, ha) (cc (k0, k1, d1))

  -- Somebody who is neither banned nor in the book introduces himself with keys of 32 bytes: after a
  -- reload of the page his contact is still there, offline, under the introduced name, and its code
  -- gives back his key, from which the presence subscription is made. His introduced type is gone.
  pub intro_survives :
      (x_pub ed_pub nick id : Bytes) (b : Book)
      → AreBytes x_pub
      → AreBytes ed_pub
      → length x_pub ≡ 32
      → length ed_pub ≡ 32
      → add_peer x_pub ed_pub ≡ some id
      → is_banned (hex_of id) b.blacklist ≡ false
      → lookup (hex_of id) b.peers ≡ none
      → (p : Peer) × (lookup
            (hex_of id)
            (reload
              (on_server decode lower add_peer cmd_intro_from (x_pub ++ ed_pub ++ nick) b)).peers
          ≡ some p)
        × (qr_xpub_bytes p.qr ≡ some x_pub)
        × (p.label ≡ or_null (some (split_nick_type decode lower add_peer (decode nick)).0))
        × (p.type ≡ none)
        × (p.online ≡ false)
  intro_survives x_pub ed_pub nick id b hx he nx ne ha hb h =
      let tag = split_nick_type decode lower add_peer (decode nick) in
      let qr = qr_of x_pub ed_pub in
      let c = accept_intro decode lower add_peer (hex_of id) qr tag b in
      let (at, saved) = accept_intro_new (hex_of id) qr tag b hb h in
      let p : Peer = record {
        qr = qr;
        label = or_null (some tag.0);
        type = none;
        online = false;
      } in
      let e : lookup (hex_of id) (reload c).peers ≡ some p =
        lookup-reload (hex_of id) c saved ∙ ap without_type at in
      (
        p,
        rw (on_server_intro x_pub ed_pub nick id b nx ne ha) e,
        qr_xpub_bytes-qr_of x_pub ed_pub hx he nx,
        refl,
        refl,
        refl,
      )
