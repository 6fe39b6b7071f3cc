-- ===== src/Client/Ids.antt =====
-- `_nextMsgId`, `_sendPeer` and `_sendServer`: the message ids, and what a send does.
use tele.Prelude.{
  ℕ, zero, suc, ◌+◌, ◌%◌, ◌<◌, ◌≡◌, refl, ◌≢◌, inl, inr, Bool, true, false, ◌&&◌, none, some, ◌∷◌,
  arith, if◌then◌else◌, Bool-cases, Option-cases,
}
use tele.Bytes.{Bytes}
use tele.Wire.{Frame}
use tele.Client.Send.{next_msg_id, Sent, sent, not_sent, threw, open_socket?, send_peer}
use tele.Client.{send_peer_frame, Client, emit}

-- The counter after k more ids.
pub take_ids : ℕ → Client → Client
take_ids zero c = c
take_ids (suc k) c = take_ids k (next_msg_id c).1

take_ids_counter :
    (k : ℕ) (c : Client)
    → c.msg_id_counter < 65536
    → (take_ids k c).msg_id_counter ≡ (c.msg_id_counter + k) % 65536
unfolding take_ids next_msg_id
take_ids_counter zero c h = omega arith
take_ids_counter (suc k) c h = omega (arith, take_ids_counter k (next_msg_id c).1 (omega arith))

-- From a counter below 2^16, the j-th and the k-th id that follow differ when j < k and k - j is
-- below 2^16.
pub ids_distinct :
    (j k : ℕ) (c : Client)
    → c.msg_id_counter < 65536
    → j < k
    → k < j + 65536
    → (next_msg_id (take_ids j c)).0 ≢ (next_msg_id (take_ids k c)).0
unfolding next_msg_id
ids_distinct j k c h p q = omega (arith, take_ids_counter j c h, take_ids_counter k c h)

-- What each result of a send to a peer says: `true`, that one frame went out on the open socket of
-- a session with keys for the peer; `false`, that no socket is open and nothing has changed; an
-- exception, that the session lacks keys, and nothing went out.
abbrev pub PeerSend : Bytes → Frame → Client → Sent × Client → Type 0
PeerSend id frame c (sent, d) =
    (i : ℕ) × (open_socket? c ≡ some i)
    × (c.keyed ≡ true)
    × (c.has_peer id ≡ true)
    × (d.out ≡ send_peer_frame i id frame c.msg_id_counter ∷ c.out)
PeerSend id frame c (not_sent, d) = (open_socket? c ≡ none) × (d ≡ c)
PeerSend id frame c (threw, d) = (c.keyed && c.has_peer id ≡ false) × (d.out ≡ c.out)

send_peer_closed :
    (id : Bytes) (frame : Frame) (c : Client)
    → open_socket? c ≡ none
    → send_peer id frame c ≡ (not_sent, c)
unfolding send_peer
send_peer_closed id frame c e = ground arith

send_peer_open :
    (id : Bytes) (frame : Frame) (c : Client) (i : ℕ)
    → open_socket? c ≡ some i
    → send_peer id frame c ≡ (
        let d = record c { msg_id_counter = (c.msg_id_counter + 1) % 65536 } in
        if c.keyed && c.has_peer id
        then (sent, emit (send_peer_frame i id frame c.msg_id_counter) d)
        else (threw, d))
unfolding send_peer
send_peer_open id frame c i e = rw (e, send_peer)

both_true : (a b : Bool) → (a && b) ≡ true → (a ≡ true) × (b ≡ true)
both_true a b h = ground arith

-- In every state `_sendPeer` has the outcome that its result says: `true`, one frame for the peer is
-- out on the open socket; `false`, there is no open socket and nothing changes; an exception, the
-- keys are missing and nothing is out.
pub send_peer_outcome :
    (id : Bytes) (frame : Frame) (c : Client) → PeerSend id frame c (send_peer id frame c)
send_peer_outcome id frame c = elim (Option-cases (open_socket? c)) [
  | inl e ↦ rw (send_peer_closed id frame c e) (e, refl)
  | inr (i, e) ↦ elim (Bool-cases (c.keyed && c.has_peer id)) [
    | inl k ↦
        let (k1, k2) = both_true c.keyed (c.has_peer id) k in
        rw (send_peer_open id frame c i e, k) (i, e, k1, k2, refl)
    | inr k ↦ rw (send_peer_open id frame c i e, k) (k, refl)
  ]
]
