-- ===== src/Mailbox/Envelope/Tests.antt =====
-- Envelopes with small ciphers.
use tele.Table.{lookup}
use tele.Wire.Codes.{cmd_text, mbx_store}
use tele.Client.{Client, new_client}
use tele.Mailbox.Envelope.{build_mailbox_envelope, rebuild_mailbox_envelope, mailbox_send}
use tele.Wire.{on_text}
use tele.Wire.Tests.{ascii, file_id, file_id-IsUuid}
use tele.Mailbox.Envelope.Mailed.{text_body, hand_off, mailed_text_arrives}
use tele.Mailbox.Envelope.Matches.{delete_misses}
use tele.Prelude.{
  ℕ, zero, suc, ◌+◌, ◌-◌, ◌≡◌, refl, ap, ◌≢◌, some, [], ◌∷◌, ◌++◌, arith, ◌===◌, codes, ===_refl,
  length, take, length-append, take-append,
}
use tele.Bytes.{Bytes}
use tele.Mailbox.Session.{
  Crypto, IsCrypto, PeerKeys, WsSession, id_of, mailbox_envelope, parse_mailbox_envelope,
}

abbrev pad_to : ℕ → Bytes → Bytes
pad_to zero l = []
pad_to (suc n) [] = 0 ∷ pad_to n []
pad_to (suc n) (b ∷ l) = b ∷ pad_to n l

-- A key is its first byte, a shared key the sum of two, and a ciphertext the text before a pad.
abbrev first_byte : Bytes → ℕ
first_byte [] = 0
first_byte (b ∷ l) = b

abbrev toy : Crypto
toy = record {
  x25519 = λ a b. (first_byte a + first_byte b) ∷ [];
  x_pub_of = λ a. pad_to 32 (first_byte a ∷ []);
  ed_pub_of = λ e. e;
  encrypt = λ key nonce plain. plain ++ pad_to 16 [];
  decrypt = λ key nonce ct. some (take (length ct - 16) ct);
  sign = λ e m. pad_to 64 e;
  verify = λ p m sig. pad_to 64 p === sig;
}

toy_opens :
    (plain : Bytes) → take (length (plain ++ pad_to 16 []) - 16) (plain ++ pad_to 16 []) ≡ plain
toy_opens plain =
    take-append (length (plain ++ pad_to 16 []) - 16) plain (pad_to 16 [])
      (omega (arith, length-append plain (pad_to 16 [])))

length-pad_to : (n : ℕ) (l : Bytes) → length (pad_to n l) ≡ n
length-pad_to zero l = refl
length-pad_to (suc n) [] = omega (arith, length-pad_to n [])
length-pad_to (suc n) (b ∷ l) = omega (arith, length-pad_to n l)

toy-IsCrypto : IsCrypto toy
toy-IsCrypto = record {
  agrees = λ a b. ap (λ n. n ∷ []) (omega arith);
  opens = λ key nonce plain. ap some (toy_opens plain);
  tagged = λ key nonce plain. length-append plain (pad_to 16 []);
  verifies = λ e m. ===_refl (pad_to 64 e);
  sign_size = λ e m. length-pad_to 64 e;
  x_pub_size = λ a. refl;
}

-- Two sessions that know each other.
abbrev keys_of : ℕ → PeerKeys
keys_of n = record { x_pub = pad_to 32 (n ∷ []); ed_pub = n ∷ [] }

abbrev session_of : ℕ → ℕ → WsSession
session_of n peer = record {
  x_priv = n ∷ [];
  x_pub = pad_to 32 (n ∷ []);
  ed = n ∷ [];
  peers = (pad_to 8 (peer ∷ []), keys_of peer) ∷ [];
}

abbrev ann : WsSession
ann = session_of 5 7

abbrev bob : WsSession
bob = session_of 7 5

abbrev nonce : Bytes
nonce = pad_to 24 (9 ∷ [])

abbrev hi : Bytes
hi = codes "hi"

ann_knows_bob : lookup (id_of bob.x_pub) ann.peers ≡ some (keys_of 7)
unfolding lookup ◌===◌
ann_knows_bob = refl

bob_knows_ann : lookup (id_of ann.x_pub) bob.peers ≡ some (keys_of 5)
unfolding lookup ◌===◌
bob_knows_ann = refl

mailed_text_arrives_example :
    (env : Bytes) × (mailbox_envelope toy ann
        (id_of bob.x_pub)
        cmd_text
        (text_body ascii file_id hi)
        300
        nonce
      ≡ some env)
    × (hand_off ascii (parse_mailbox_envelope toy bob env)
        ≡ some (id_of ann.x_pub, on_text file_id hi))
mailed_text_arrives_example =
    mailed_text_arrives ascii toy ann bob (keys_of 7) (keys_of 5) 300 file_id hi nonce toy-IsCrypto
      refl refl ann_knows_bob refl bob_knows_ann refl refl refl file_id-IsUuid refl

-- A client that has sent 65535 frames more.
abbrev later : Client
later = record new_client { msg_id_counter = 0 }

delete_misses_example :
    (env : Bytes) × (c1 : Client) × (build_mailbox_envelope toy ann
        (id_of bob.x_pub)
        cmd_text
        hi
        nonce
        new_client
      ≡ (some (env, nonce), c1))
    × ((rebuild_mailbox_envelope toy ann (id_of bob.x_pub) cmd_text hi nonce later).0 ≢ some env)
    × (let c2 = (mailbox_send (codes "mailbox1") mbx_store bob.x_pub env c1).1 in
        (rebuild_mailbox_envelope toy ann (id_of bob.x_pub) cmd_text hi nonce c2).0 ≢ some env)
delete_misses_example =
    delete_misses toy ann (keys_of 7) (id_of bob.x_pub) (codes "mailbox1") bob.x_pub cmd_text hi
      nonce new_client later toy-IsCrypto refl ann_knows_bob refl refl
      (unfold new_client in omega arith) (unfold new_client in λ e. absurd (omega arith))
