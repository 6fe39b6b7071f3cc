-- ===== src/Book/Server.antt =====
-- What the server tells the book: client.onServer, handleIntroFrom and splitNickType of `web/app.js`,
-- and the dialog that adds a contact.
use tele.Prelude.{
  ℕ, zero, suc, ◌/◌, Bool, true, false, ◌&&◌, ◌||◌, Option, none, some, List, [], ◌∷◌, ltb, leb,
  ◌==◌, if◌then◌else◌, ◌===◌, codes, length, take, drop, slice,
}
use tele.Bytes.{Text, Bytes, hex_of}
use tele.Table.{lookup}
use tele.Storage.Rows.{trim}
use tele.Wire.Codes.{cmd_peer_online, cmd_peer_offline}
use tele.Keys.{or_null, or_else, set}
use tele.Keys.Qr.{qr_of, extract_qr_text}
use tele.Book.{
  Peer, wake_sent, introduced, outbox_flushed, re_rung, added_you, Book, emit, persist,
  subscribe_all, is_banned, set_online,
}

abbrev pub cmd_intro_from : ℕ
cmd_intro_from = 0x47

abbrev pub cmd_error : ℕ
cmd_error = 0xff

abbrev pub err_recipient_offline : ℕ
err_recipient_offline = 3

-- What stands before and behind the first U+241F, if there is one.
unfoldable pub split_at_sep : Text → Text × Option Text
split_at_sep [] = ([], none)
split_at_sep (c ∷ s) =
    let (name, tag) = split_at_sep s in if c == 0x241f then ([], some s) else (c ∷ name, tag)

-- The first `n` keys of 32 bytes.
unfoldable pub keys_of : ℕ → Bytes → List Bytes
keys_of zero body = []
keys_of (suc n) body = take 32 body ∷ keys_of n (drop 32 body)

-- The loop over the keys of PEER_ONLINE.
unfoldable pub peers_online : List Bytes → Book → Book
unfolding set_online hex_of
peers_online [] b = b
peers_online (x_pub ∷ keys) b =
    let id = hex_of (take 8 x_pub) in
    peers_online keys (emit (re_rung id) (emit (outbox_flushed id) (set_online x_pub true b)))

-- The loop over the keys of PEER_OFFLINE.
unfoldable pub peers_offline : List Bytes → Book → Book
unfolding set_online
peers_offline [] b = b
peers_offline (x_pub ∷ keys) b = peers_offline keys (set_online x_pub false b)

-- The branch of ERROR with RECIPIENT_OFFLINE.
unfoldable pub recipient_offline : Bytes → Book → Book
unfolding hex_of set
recipient_offline tid b =
    let id = hex_of tid in
    elim (lookup id b.peers) [
      | none ↦ b
      | some p ↦
          let peers = if p.online then set id (record p { online = false }) b.peers else b.peers in
          emit (wake_sent tid false) (record b { peers = peers })
    ]

abbrev pub head_is : ℕ → Bytes → Bool
head_is n [] = false
head_is n (c ∷ body) = c == n

abbrev pub person : Text
person = codes "person"

module _ (decode : Bytes → Text) (lower : Text → Text)
    (add_peer : Bytes → Bytes → Option Bytes) where
  -- splitNickType
  unfoldable pub split_nick_type : Text → Text × Option Text
  unfolding split_at_sep trim
  split_nick_type s =
      let (name, tag) = split_at_sep s in
      elim tag [
        | none ↦ (name, none)
        | some raw ↦
            let type = lower (trim raw) in
            (name, if type === [] || type === person then none else some type)
      ]

  -- The entry that handleIntroFrom stores over the one that is there.
  unfoldable pub intro_entry : Text → Text × Option Text → Option Peer → Peer
  intro_entry qr (nick, intro_type) none = record {
    qr = qr;
    label = or_null (some nick);
    type = or_null intro_type;
    online = true;
  }
  intro_entry qr (nick, intro_type) (some p) = record {
    qr = qr;
    label = or_else p.label (or_null (some nick));
    type = or_else p.type (or_null intro_type);
    online = true;
  }

  -- handleIntroFrom, once `addPeer` gave the id.
  unfoldable pub accept_intro : Text → Text → Text × Option Text → Book → Book
  unfolding is_banned intro_entry set persist subscribe_all
  accept_intro id qr tag b =
      let old = lookup id b.peers in
      let b' =
        subscribe_all (persist (record b { peers = set id (intro_entry qr tag old) b.peers })) in
      if is_banned id b.blacklist
      then b
      else elim old [ none ↦ emit (added_you id) b' | some p ↦ b' ]

  -- handleIntroFrom
  unfoldable pub handle_intro_from : Bytes → Book → Book
  unfolding split_nick_type qr_of accept_intro hex_of
  handle_intro_from body b =
      let x_pub = slice 0 32 body in
      let ed_pub = slice 32 64 body in
      if ltb (length body) 64 then b else elim (add_peer x_pub ed_pub) [
        | none ↦ b
        | some id ↦
            accept_intro (hex_of id) (qr_of x_pub ed_pub) (split_nick_type (decode (drop 64 body)))
              b
      ]

  -- client.onServer; the notice of INFO is shown and leaves the state as it is.
  unfoldable pub on_server : ℕ → Bytes → Book → Book
  unfolding keys_of peers_online peers_offline recipient_offline handle_intro_from
  on_server cmd body b =
      let keys = keys_of (length body / 32) body in
      if cmd == cmd_peer_online
      then peers_online keys b
      else if cmd == cmd_peer_offline
      then peers_offline keys b
      else if cmd == cmd_error && head_is err_recipient_offline body && leb 9 (length body)
      then recipient_offline (slice 1 9 body) b
      else if cmd == cmd_intro_from
      then handle_intro_from body b
      else b

module _ (search_peer : Text → Option Text) (add_peer_from_qr : Text → Option Bytes) where
  -- The `add-save` button: the contact, or the text of an error.
  unfoldable pub add_save : Text → Text → Book → Bool × Book
  unfolding extract_qr_text trim hex_of set persist subscribe_all
  add_save input label b = elim (extract_qr_text search_peer input) [
    | none ↦ (false, b)
    | some qr ↦ elim (add_peer_from_qr qr) [
      | none ↦ (false, b)
      | some id ↦
          let p : Peer = record {
            qr = qr;
            label = or_null (some (trim label));
            type = none;
            online = false;
          } in
          let b' = record b { peers = set (hex_of id) p b.peers } in
          (true, emit (introduced id) (subscribe_all (persist b')))
    ]
  ]
