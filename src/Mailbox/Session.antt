-- ===== src/Mailbox/Session.antt =====
-- The envelopes that are left with a mailbox, as `wasm/src/lib.rs` seals and opens them. X25519,
-- XChaCha20-Poly1305 and Ed25519 are a record with their documented laws; a fresh nonce is an
-- argument, and an error is `none`.
use tele.Prelude.{
  ℕ, ◌+◌, ◌-◌, ◌*◌, ◌/◌, ◌%◌, ◌≡◌, Bool, true, not, Option, none, some, ◌∷◌, ◌++◌, ltb, ◌==◌,
  if◌then◌else◌, ◌===◌, length, take, drop,
}
use tele.Bytes.{Bytes}
use tele.Table.{Table, lookup}

pub record Crypto : Type 0 where
  -- of a private and a public key
  pub x25519 : Bytes → Bytes → Bytes
  pub x_pub_of : Bytes → Bytes
  pub ed_pub_of : Bytes → Bytes
  -- with a key and a nonce
  pub encrypt : Bytes → Bytes → Bytes → Bytes
  pub decrypt : Bytes → Bytes → Bytes → Option Bytes
  pub sign : Bytes → Bytes → Bytes
  -- of a public key, a message and a signature
  pub verify : Bytes → Bytes → Bytes → Bool

-- The documented laws.
pub record IsCrypto (k : Crypto) : Type 0 where
  pub agrees : (a b : Bytes) → k.x25519 a (k.x_pub_of b) ≡ k.x25519 b (k.x_pub_of a)
  pub opens :
      (key nonce plain : Bytes) → k.decrypt key nonce (k.encrypt key nonce plain) ≡ some plain
  pub tagged : (key nonce plain : Bytes) → length (k.encrypt key nonce plain) ≡ length plain + 16
  pub verifies : (ed m : Bytes) → k.verify (k.ed_pub_of ed) m (k.sign ed m) ≡ true
  pub sign_size : (ed m : Bytes) → length (k.sign ed m) ≡ 64
  pub x_pub_size : (x_priv : Bytes) → length (k.x_pub_of x_priv) ≡ 32

pub record PeerKeys : Type 0 where
  pub x_pub : Bytes
  pub ed_pub : Bytes

-- WsSession, with its keys and its address book by id.
pub record WsSession : Type 0 where
  pub x_priv : Bytes
  pub x_pub : Bytes
  pub ed : Bytes
  pub peers : Table PeerKeys

-- id_of
abbrev pub id_of : Bytes → Bytes
id_of x_pub = take 8 x_pub

-- pack_inner
unfoldable pub pack_inner : ℕ → ℕ → Bytes → Bytes
pack_inner msg_id cmd body = (msg_id % 256) ∷ (msg_id / 256) ∷ cmd ∷ body

-- encrypt_and_sign with the given nonce
unfoldable pub encrypt_and_sign : Crypto → Bytes → Bytes → Bytes → Bytes → Bytes → Bytes
encrypt_and_sign k plain x_priv ed their_x_pub nonce =
    let packet = nonce ++ k.encrypt (k.x25519 x_priv their_x_pub) nonce plain in
    packet ++ k.sign ed packet

-- verify_and_decrypt
unfoldable pub verify_and_decrypt : Crypto → Bytes → Bytes → Bytes → Bytes → Option Bytes
verify_and_decrypt k packet x_priv their_x_pub their_ed_pub =
    let nc = take (length packet - 64) packet in
    let sig = drop (length packet - 64) packet in
    if ltb (length packet) 104
    then none
    else if k.verify their_ed_pub nc sig
    then k.decrypt (k.x25519 x_priv their_x_pub) (take 24 nc) (drop 24 nc)
    else none

-- rebuild_mailbox_envelope; build_mailbox_envelope is the same with a fresh nonce.
unfoldable pub mailbox_envelope : Crypto → WsSession → Bytes → ℕ → Bytes → ℕ → Bytes → Option Bytes
unfolding lookup pack_inner encrypt_and_sign
mailbox_envelope k s peer_id cmd body msg_id nonce =
    if not (length nonce == 24)
    then none
    else if not (length peer_id == 8)
    then none
    else elim (lookup peer_id s.peers) [
      | none ↦ none
      | some peer ↦ some (
          s.x_pub ++ encrypt_and_sign k (pack_inner msg_id cmd body) s.x_priv s.ed peer.x_pub nonce)
    ]

-- Incoming, of a peer or an error.
pub data Incoming : Type 0 where
  -- from_id, cmd, msg_id and body
  from_peer : Bytes → ℕ → ℕ → Bytes → Incoming
  error : Incoming

-- ok_peer
unfoldable pub ok_peer : Bytes → Bytes → Incoming
ok_peer from_id (lo ∷ hi ∷ cmd ∷ body) = from_peer from_id cmd (lo + hi * 256) body
ok_peer from_id _ = error

-- parse_mailbox_envelope, of a key and a packet
unfoldable pub parse_packet : Crypto → WsSession → Bytes → Bytes → Incoming
unfolding lookup verify_and_decrypt ok_peer ◌===◌
parse_packet k s sender_x_pub packet = elim (lookup (id_of sender_x_pub) s.peers) [
  | none ↦ error
  | some peer ↦
      if not (peer.x_pub === sender_x_pub)
      then error
      else elim (verify_and_decrypt k packet s.x_priv peer.x_pub peer.ed_pub) [
        | none ↦ error
        | some inner ↦ ok_peer (id_of sender_x_pub) inner
      ]
]

-- parse_mailbox_envelope
unfoldable pub parse_mailbox_envelope : Crypto → WsSession → Bytes → Incoming
unfolding parse_packet
parse_mailbox_envelope k s env =
    if ltb (length env) 136 then error else parse_packet k s (take 32 env) (drop 32 env)
