-- ===== src/Mailbox/Envelope/Matches.antt =====
-- Whether the envelope of a DELETE is that of the STORE.
use tele.Client.Send.{next_msg_id, send_peer}
use tele.Mailbox.Envelope.Opens.{mailbox_envelope-known, ok_peer-pack_inner}
use tele.Prelude.{
  ℕ, ◌+◌, ◌%◌, ◌<◌, ◌≡◌, refl, sym, ap, ◌∙◌, ◌≢◌, ◌⊎◌, inl, inr, Option, none, some, [], ◌++◌,
  append_assoc, arith, length, take, drop, take-append, drop-append,
}
use tele.Bytes.{Bytes}
use tele.Table.{lookup}
use tele.Client.{Client}
use tele.Wire.Codes.{mbx_store}
use tele.Mailbox.Session.{
  Crypto, IsCrypto, PeerKeys, WsSession, pack_inner, encrypt_and_sign, mailbox_envelope, Incoming,
  from_peer, error, ok_peer,
}
use tele.Mailbox.Envelope.{build_mailbox_envelope, rebuild_mailbox_envelope, mailbox_send}

abbrev or_empty : Option Bytes → Bytes
or_empty none = []
or_empty (some plain) = plain

-- What stands under the key and the nonce in an envelope with a text of `m` bytes.
unfoldable inner_of : Crypto → Bytes → Bytes → ℕ → Option Bytes → Bytes
inner_of k key nonce m none = []
inner_of k key nonce m (some env) =
    or_empty (k.decrypt key nonce (take (m + 16) (drop 24 (drop 32 env))))

inner_of-encrypt_and_sign :
    (k : Crypto) (x_pub plain x_priv ed their nonce : Bytes)
    → IsCrypto k
    → length x_pub ≡ 32
    → length nonce ≡ 24
    → inner_of k
        (k.x25519 x_priv their)
        nonce
        (length plain)
        (some (x_pub ++ encrypt_and_sign k plain x_priv ed their nonce))
      ≡ plain
unfolding inner_of encrypt_and_sign
inner_of-encrypt_and_sign k x_pub plain x_priv ed their nonce laws x n =
    let key = k.x25519 x_priv their in
    let ct = k.encrypt key nonce plain in
    let sig = k.sign ed (nonce ++ ct) in
    let m = length plain + 16 in
    let found : take m (drop 24 (drop 32 (x_pub ++ ((nonce ++ ct) ++ sig)))) ≡ ct =
      ap (λ l. take m (drop 24 l)) (drop-append 32 x_pub ((nonce ++ ct) ++ sig) x)
      ∙ ap (λ l. take m (drop 24 l)) (append_assoc nonce ct sig)
      ∙ ap (λ l. take m l) (drop-append 24 nonce (ct ++ sig) n)
      ∙ take-append m ct sig (laws.tagged key nonce plain) in
    ap (λ l. or_empty (k.decrypt key nonce l)) found ∙ ap or_empty (laws.opens key nonce plain)

abbrev msg_of : Incoming → ℕ
msg_of (from_peer from_id cmd msg_id body) = msg_id
msg_of error = 0

pack_inner-id : (i j cmd : ℕ) (body : Bytes) → pack_inner i cmd body ≡ pack_inner j cmd body → i ≡ j
pack_inner-id i j cmd body e =
    ap msg_of (
      sym (ok_peer-pack_inner [] cmd i body) ∙ ap (ok_peer []) e ∙ ok_peer-pack_inner [] cmd j body)

length-pack_inner : (i cmd : ℕ) (body : Bytes) → length (pack_inner i cmd body) ≡ length body + 3
unfolding pack_inner
length-pack_inner i cmd body = omega arith

-- The text of an envelope is the one that was sealed.
inner_of-mailbox_envelope :
    (k : Crypto) (s : WsSession) (peer : PeerKeys) (peer_id : Bytes) (cmd i : ℕ)
    (body nonce : Bytes)
    → IsCrypto k
    → length s.x_pub ≡ 32
    → lookup peer_id s.peers ≡ some peer
    → length peer_id ≡ 8
    → length nonce ≡ 24
    → inner_of k
        (k.x25519 s.x_priv peer.x_pub)
        nonce
        (length body + 3)
        (mailbox_envelope k s peer_id cmd body i nonce)
      ≡ pack_inner i cmd body
inner_of-mailbox_envelope k s peer peer_id cmd i body nonce laws x known size n =
    rw
      (
        mailbox_envelope-known k s peer peer_id cmd i body nonce known size n,
        ← length-pack_inner i cmd body,
      )
      (inner_of-encrypt_and_sign k s.x_pub (pack_inner i cmd body) s.x_priv s.ed peer.x_pub nonce
        laws x n)

-- The envelopes with two message ids agree only if the ids do.
ids_agree :
    (k : Crypto) (s : WsSession) (peer : PeerKeys) (peer_id : Bytes) (cmd i j : ℕ)
    (body nonce : Bytes)
    → IsCrypto k
    → length s.x_pub ≡ 32
    → lookup peer_id s.peers ≡ some peer
    → length peer_id ≡ 8
    → length nonce ≡ 24
    → mailbox_envelope k s peer_id cmd body i nonce ≡ mailbox_envelope k s peer_id cmd body j nonce
    → i ≡ j
ids_agree k s peer peer_id cmd i j body nonce laws x known size n same =
    pack_inner-id i j cmd body (
      sym (inner_of-mailbox_envelope k s peer peer_id cmd i body nonce laws x known size n)
      ∙ ap (inner_of k (k.x25519 s.x_priv peer.x_pub) nonce (length body + 3)) same
      ∙ inner_of-mailbox_envelope k s peer peer_id cmd j body nonce laws x known size n)

-- A send moves the counter on, or leaves it if there is no open socket.
mailbox_send-counter :
    (mailbox_id : Bytes) (op : ℕ) (recipient env : Bytes) (c : Client)
    → let n = (mailbox_send mailbox_id op recipient env c).1.msg_id_counter in
      (n ≡ c.msg_id_counter) ⊎ (n ≡ (c.msg_id_counter + 1) % 65536)
unfolding mailbox_send send_peer next_msg_id
mailbox_send-counter mailbox_id op recipient env c = ground arith

moved_on :
    (i n : ℕ) → i < 65536 → (n ≡ (i + 1) % 65536) ⊎ (n ≡ ((i + 1) % 65536 + 1) % 65536) → n ≢ i
moved_on i n small (inl e) back = absurd (omega arith)
moved_on i n small (inr e) back = absurd (omega arith)

-- The envelope of a DELETE, by rebuildMailboxEnvelope with the nonce of the STORE, is another one
-- than that of the STORE if the message counter of the client has another value by then; and so it is
-- right after a STORE, whether its frame goes out or not.
pub delete_misses :
    (k : Crypto) (s : WsSession) (peer : PeerKeys) (peer_id mailbox_id recipient : Bytes) (cmd : ℕ)
    (body nonce : Bytes) (c d : Client)
    → IsCrypto k
    → length s.x_pub ≡ 32
    → lookup peer_id s.peers ≡ some peer
    → length peer_id ≡ 8
    → length nonce ≡ 24
    → c.msg_id_counter < 65536
    → d.msg_id_counter ≢ c.msg_id_counter
    → (env : Bytes) × (c1 : Client) × (build_mailbox_envelope k s peer_id cmd body nonce c
        ≡ (some (env, nonce), c1))
      × ((rebuild_mailbox_envelope k s peer_id cmd body nonce d).0 ≢ some env)
      × (let c2 = (mailbox_send mailbox_id mbx_store recipient env c1).1 in
          (rebuild_mailbox_envelope k s peer_id cmd body nonce c2).0 ≢ some env)
unfolding build_mailbox_envelope rebuild_mailbox_envelope next_msg_id
delete_misses k s peer peer_id mailbox_id recipient cmd body nonce c d laws x known size n small
      other =
    let id = c.msg_id_counter in
    let env =
      s.x_pub ++ encrypt_and_sign k (pack_inner id cmd body) s.x_priv s.ed peer.x_pub nonce in
    let built = mailbox_envelope-known k s peer peer_id cmd id body nonce known size n in
    let c1 = (next_msg_id c).1 in
    let c2 = (mailbox_send mailbox_id mbx_store recipient env c1).1 in
    let only : (b : Client)
        → (rebuild_mailbox_envelope k s peer_id cmd body nonce b).0 ≡ some env
        → b.msg_id_counter ≡ id =
      λ b e.
        ids_agree k s peer peer_id cmd b.msg_id_counter id body nonce laws x known size n
          (e ∙ sym built) in
    (
      env,
      c1,
      rw built refl,
      λ e. other (only d e),
      λ e.
          moved_on id c2.msg_id_counter small
            (mailbox_send-counter mailbox_id mbx_store recipient env c1) (only c2 e),
    )
