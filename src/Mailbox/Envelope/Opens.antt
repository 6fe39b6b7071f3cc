-- ===== src/Mailbox/Envelope/Opens.antt =====
-- That the recipient opens what the sender has sealed.
use tele.Prelude.{
  ℕ, ◌+◌, ◌-◌, ◌≤◌, ◌≡◌, refl, ap, ◌∙◌, false, none, some, ◌++◌, arith, ltb, if◌then◌else◌,
  ===_refl, length, length-append, length-take, take-append, drop-append,
}
use tele.Bytes.{Bytes}
use tele.Table.{lookup}
use tele.Mailbox.Session.{
  Crypto, IsCrypto, PeerKeys, WsSession, id_of, pack_inner, encrypt_and_sign, verify_and_decrypt,
  mailbox_envelope, from_peer, ok_peer, parse_packet, parse_mailbox_envelope,
}

split_packet :
    (k : Crypto) (nonce ct sig x_priv x_pub ed_pub : Bytes)
    → length nonce ≡ 24
    → 16 ≤ length ct
    → length sig ≡ 64
    → verify_and_decrypt k ((nonce ++ ct) ++ sig) x_priv x_pub ed_pub ≡ (
        if k.verify ed_pub (nonce ++ ct) sig
        then k.decrypt (k.x25519 x_priv x_pub) nonce ct
        else none)
unfolding verify_and_decrypt
split_packet k nonce ct sig x_priv x_pub ed_pub n c g =
    let packet = nonce ++ ct in
    let size : length (packet ++ sig) ≡ length packet + 64 =
      length-append packet sig ∙ ap (λ m. length packet + m) g in
    let enough : ltb (length packet + 64) 104 ≡ false =
      rw (length-append nonce ct, n) (ground arith) in
    let start : length packet + 64 - 64 ≡ length packet = omega arith in
    rw
      (
        size,
        enough,
        start,
        take-append (length packet) packet sig refl,
        drop-append (length packet) packet sig refl,
        take-append 24 nonce ct n,
        drop-append 24 nonce ct n,
      )
      refl

verify_and_decrypt-encrypt_and_sign :
    (k : Crypto) (plain a ed b nonce : Bytes)
    → IsCrypto k
    → length nonce ≡ 24
    → verify_and_decrypt k
        (encrypt_and_sign k plain a ed (k.x_pub_of b) nonce)
        b
        (k.x_pub_of a)
        (k.ed_pub_of ed)
      ≡ some plain
unfolding encrypt_and_sign
verify_and_decrypt-encrypt_and_sign k plain a ed b nonce laws n =
    let key = k.x25519 a (k.x_pub_of b) in
    let ct = k.encrypt key nonce plain in
    let packet = nonce ++ ct in
    let long : 16 ≤ length ct = rw (laws.tagged key nonce plain) (omega arith) in
    rw
      (
        split_packet k nonce ct (k.sign ed packet) b (k.x_pub_of a) (k.ed_pub_of ed) n long
            (laws.sign_size ed packet),
        laws.verifies ed packet,
        ← laws.agrees a b,
      )
      (laws.opens key nonce plain)

length-encrypt_and_sign :
    (k : Crypto) (plain x_priv ed x_pub nonce : Bytes)
    → IsCrypto k
    → length nonce ≡ 24
    → length (encrypt_and_sign k plain x_priv ed x_pub nonce) ≡ length plain + 104
unfolding encrypt_and_sign
length-encrypt_and_sign k plain x_priv ed x_pub nonce laws n =
    let key = k.x25519 x_priv x_pub in
    let ct = k.encrypt key nonce plain in
    let packet = nonce ++ ct in
    rw
      (
        length-append packet (k.sign ed packet),
        laws.sign_size ed packet,
        length-append nonce ct,
        laws.tagged key nonce plain,
        n,
      )
      (omega arith)

-- The envelope for a peer in the address book.
pub mailbox_envelope-known :
    (k : Crypto) (s : WsSession) (peer : PeerKeys) (peer_id : Bytes) (cmd msg_id : ℕ)
    (body nonce : Bytes)
    → lookup peer_id s.peers ≡ some peer
    → length peer_id ≡ 8
    → length nonce ≡ 24
    → mailbox_envelope k s peer_id cmd body msg_id nonce
      ≡ some (
          s.x_pub ++ encrypt_and_sign k (pack_inner msg_id cmd body) s.x_priv s.ed peer.x_pub nonce)
unfolding mailbox_envelope
mailbox_envelope-known k s peer peer_id cmd msg_id body nonce known size n =
    rw (n, size, mailbox_envelope, known) refl

parse_known :
    (k : Crypto) (r : WsSession) (peer : PeerKeys) (x_pub packet inner : Bytes)
    → lookup (id_of x_pub) r.peers ≡ some peer
    → peer.x_pub ≡ x_pub
    → verify_and_decrypt k packet r.x_priv x_pub peer.ed_pub ≡ some inner
    → parse_packet k r x_pub packet ≡ ok_peer (id_of x_pub) inner
unfolding parse_packet
parse_known k r peer x_pub packet inner known same opened =
    rw (known, parse_packet, same, ===_refl x_pub, opened) refl

-- What is parsed of a prefix and a packet.
parse_prefixed :
    (k : Crypto) (r : WsSession) (peer : PeerKeys) (x_pub packet inner : Bytes)
    → length x_pub ≡ 32
    → 104 ≤ length packet
    → lookup (id_of x_pub) r.peers ≡ some peer
    → peer.x_pub ≡ x_pub
    → verify_and_decrypt k packet r.x_priv x_pub peer.ed_pub ≡ some inner
    → parse_mailbox_envelope k r (x_pub ++ packet) ≡ ok_peer (id_of x_pub) inner
unfolding parse_mailbox_envelope
parse_prefixed k r peer x_pub packet inner n long known same opened =
    let enough : ltb (length (x_pub ++ packet)) 136 ≡ false =
      rw (length-append x_pub packet, n) (ground arith) in
    rw (enough, take-append 32 x_pub packet n, drop-append 32 x_pub packet n)
      (parse_known k r peer x_pub packet inner known same opened)

pub ok_peer-pack_inner :
    (from_id : Bytes) (cmd msg_id : ℕ) (body : Bytes)
    → ok_peer from_id (pack_inner msg_id cmd body) ≡ from_peer from_id cmd msg_id body
unfolding ok_peer pack_inner
ok_peer-pack_inner from_id cmd msg_id body = ap (λ m. from_peer from_id cmd m body) (omega arith)

-- A frame that is sealed for a peer gives an envelope, and that peer opens it as the frame: with the
-- sender's id, command, message id and body, provided each has the keys of the other in the address
-- book.
pub envelope_opens :
    (k : Crypto) (s r : WsSession) (rk sk : PeerKeys) (cmd msg_id : ℕ) (body nonce : Bytes)
    → IsCrypto k
    → s.x_pub ≡ k.x_pub_of s.x_priv
    → r.x_pub ≡ k.x_pub_of r.x_priv
    → lookup (id_of r.x_pub) s.peers ≡ some rk
    → rk.x_pub ≡ r.x_pub
    → lookup (id_of s.x_pub) r.peers ≡ some sk
    → sk.x_pub ≡ s.x_pub
    → sk.ed_pub ≡ k.ed_pub_of s.ed
    → length nonce ≡ 24
    → (env : Bytes) × (mailbox_envelope k s (id_of r.x_pub) cmd body msg_id nonce ≡ some env)
      × (parse_mailbox_envelope k r env ≡ from_peer (id_of s.x_pub) cmd msg_id body)
envelope_opens k s r rk sk cmd msg_id body nonce laws own own_r to_r key_r to_s key_s ed_s n =
    let plain = pack_inner msg_id cmd body in
    let packet = encrypt_and_sign k plain s.x_priv s.ed rk.x_pub nonce in
    let size : length r.x_pub ≡ 32 = ap length own_r ∙ laws.x_pub_size r.x_priv in
    let id_size : length (id_of r.x_pub) ≡ 8 = length-take 8 r.x_pub ∙ rw size refl in
    let opened : verify_and_decrypt k packet r.x_priv s.x_pub sk.ed_pub ≡ some plain =
      rw (key_r, own_r, own, ed_s)
        (verify_and_decrypt-encrypt_and_sign k plain s.x_priv s.ed r.x_priv nonce laws n) in
    (
      s.x_pub ++ packet,
      mailbox_envelope-known k s rk (id_of r.x_pub) cmd msg_id body nonce to_r id_size n,
      parse_prefixed k r sk s.x_pub packet plain (ap length own ∙ laws.x_pub_size s.x_priv)
            (rw (length-encrypt_and_sign k plain s.x_priv s.ed rk.x_pub nonce laws n) (omega arith))
            to_s key_s opened
          ∙ ok_peer-pack_inner (id_of s.x_pub) cmd msg_id body,
    )
