-- ===== src/Book/Presence.antt =====
-- Presence: the PEER_ONLINE and PEER_OFFLINE frames of the server against the flags of the contacts
-- (`web/app.js`).
use tele.Prelude.{
  suc, ◌/◌, ◌≡◌, refl, ◌∙◌, inl, inr, Bool, true, false, ◌||◌, Option, none, some, List, [], ◌∷◌,
  ◌++◌, arith, if◌then◌else◌, Option-cases, ◌===◌, ===_iff, length, take, length-append,
  take-append, drop-append, All,
}
use tele.Bytes.{Text, Bytes, hex_of, concat_u8}
use tele.Table.{Table, lookup}
use tele.Keys.{set, lookup-set}
use tele.Wire.Codes.{cmd_peer_online, cmd_peer_offline}
use tele.Book.{Peer, Book, set_online}
use tele.Book.Server.{keys_of, peers_online, peers_offline, on_server}

-- The flag of a contact.
unfoldable pub flag : Text → Table Peer → Option Bool
flag k t = elim (lookup k t) [ none ↦ none | some p ↦ some p.online ]

-- One of the keys is that of the contact.
unfoldable pub mentions : Text → List Bytes → Bool
mentions k [] = false
mentions k (x_pub ∷ keys) = hex_of (take 8 x_pub) === k || mentions k keys

-- The last frame of a list that mentions the contact decides, or the flag stays.
unfoldable pub last_word : Text → List (Bool × List Bytes) → Bool → Bool
last_word k [] on = on
last_word k ((v, keys) ∷ frames) on = last_word k frames (if mentions k keys then v else on)

flag-set :
    (id k : Text) (p : Peer) (t : Table Peer)
    → flag k (set id p t) ≡ (if id === k then some p.online else flag k t)
unfolding flag
flag-set id k p t = grind (arith, lookup-set id k p t)

flag-set_online :
    (x_pub : Bytes) (v : Bool) (k : Text) (b : Book) (on : Bool)
    → flag k b.peers ≡ some on
    → flag k (set_online x_pub v b).peers ≡ some (if hex_of (take 8 x_pub) === k then v else on)
unfolding set_online flag
flag-set_online x_pub v k b on h = elim (Option-cases (lookup (hex_of (take 8 x_pub)) b.peers)) [
  | inl e ↦ rw (e, set_online) (grind (arith, h, ===_iff (hex_of (take 8 x_pub)) k))
  | inr (p, e) ↦
      rw (e, set_online)
        (grind (arith, h, lookup-set (hex_of (take 8 x_pub)) k (record p { online = v }) b.peers))
]

flag-peers_online :
    (keys : List Bytes) (k : Text) (b : Book) (on : Bool)
    → flag k b.peers ≡ some on
    → flag k (peers_online keys b).peers ≡ some (if mentions k keys then true else on)
unfolding peers_online mentions
flag-peers_online [] k b on h = h
flag-peers_online (x ∷ keys) k b on h =
    flag-peers_online keys k _ _ (flag-set_online x true k b on h) ∙ ground arith

flag-peers_offline :
    (keys : List Bytes) (k : Text) (b : Book) (on : Bool)
    → flag k b.peers ≡ some on
    → flag k (peers_offline keys b).peers ≡ some (if mentions k keys then false else on)
unfolding peers_offline mentions
flag-peers_offline [] k b on h = h
flag-peers_offline (x ∷ keys) k b on h =
    flag-peers_offline keys k _ _ (flag-set_online x false k b on h) ∙ ground arith

-- A body of keys is cut where they were put together.
keys_of-concat_u8 :
    (keys : List Bytes)
    → All (λ x. length x ≡ 32) keys
    → keys_of (length (concat_u8 keys) / 32) (concat_u8 keys) ≡ keys
unfolding keys_of concat_u8
keys_of-concat_u8 [] h = refl
keys_of-concat_u8 (x ∷ keys) h =
    let rest = concat_u8 keys in
    let e : length (x ++ rest) / 32 ≡ suc (length rest / 32) =
      rw (length-append x rest, h.0) (omega arith) in
    rw (e, take-append 32 x rest h.0, drop-append 32 x rest h.0, keys_of-concat_u8 keys h.1) refl

module _ (decode : Bytes → Text) (lower : Text → Text)
    (add_peer : Bytes → Bytes → Option Bytes) where
  -- The frames of the server, one after the other: PEER_ONLINE for true, PEER_OFFLINE for false.
  unfoldable pub run_presence : List (Bool × List Bytes) → Book → Book
  run_presence [] b = b
  run_presence ((v, keys) ∷ frames) b = run_presence frames (
      on_server decode lower add_peer (if v then cmd_peer_online else cmd_peer_offline)
        (concat_u8 keys) b)

  -- Every key of a list of frames is one of 32 bytes.
  abbrev pub AreKeys : List (Bool × List Bytes) → Type 0
  AreKeys = All (λ f. All (λ x. length x ≡ 32) f.1)

  flag-on_server :
      (v : Bool) (keys : List Bytes) (k : Text) (b : Book) (on : Bool)
      → All (λ x. length x ≡ 32) keys
      → flag k b.peers ≡ some on
      → flag k
          (on_server decode lower add_peer
            (if v then cmd_peer_online else cmd_peer_offline)
            (concat_u8 keys)
            b).peers
        ≡ some (if mentions k keys then v else on)
  unfolding on_server
  flag-on_server true keys k b on hk h =
      rw (keys_of-concat_u8 keys hk) (flag-peers_online keys k b on h)
  flag-on_server false keys k b on hk h =
      rw (keys_of-concat_u8 keys hk) (flag-peers_offline keys k b on h)

  -- After any sequence of PEER_ONLINE and PEER_OFFLINE frames, each with any number of keys of 32
  -- bytes, a contact is shown as the last frame says that mentions it, whatever the frames say of
  -- the others; and if none does, as before.
  pub presence_lem :
      (frames : List (Bool × List Bytes)) (k : Text) (b : Book) (on : Bool)
      → AreKeys frames
      → flag k b.peers ≡ some on
      → flag k (run_presence frames b).peers ≡ some (last_word k frames on)
  unfolding run_presence last_word
  presence_lem [] k b on hk h = h
  presence_lem ((v, keys) ∷ frames) k b on hk h =
      presence_lem frames k _ _ hk.1 (flag-on_server v keys k b on hk.0 h)
