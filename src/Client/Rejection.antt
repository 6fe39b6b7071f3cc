-- ===== src/Client/Rejection.antt =====
-- A refused handshake: the reasons that finishHandshake of `wasm/src/lib.rs` gives, against the test
-- by which `ws.onmessage` of `web/ws_client.js` means to stop the reconnect loop.
use tele.Prelude.{
  ℕ, ◌+◌, ◌/◌, ◌%◌, ◌≡◌, refl, true, false, some, [], ◌∷◌, ◌++◌, arith, ltb, if◌then◌else◌, codes,
}
use tele.Bytes.{Text, hex_of, contains}
use tele.Client.Receive.{refused, Session, fatal_mark, on_handshake}
use tele.Client.{open_, Client}
use tele.Client.Step.{closed, step}

-- The errors of decode_server_frame, and the error codes of a reply that is no OK.
pub data Refusal : Type 0 where
  frame_too_short handshake_not_done not_a_server_frame : Refusal
  bad_sig_len bad_signature aead_decrypt : Refusal
  id_in_use : Refusal
  bad_version error_code : ℕ → Refusal

-- A byte in decimal.
pub decimal : ℕ → Text
decimal n =
    if ltb n 10
    then (b'0' + n) ∷ []
    else if ltb n 100
    then (b'0' + n / 10) ∷ (b'0' + n % 10) ∷ []
    else (b'0' + n / 100) ∷ (b'0' + n / 10 % 10) ∷ (b'0' + n % 10) ∷ []

unfoldable pub reason_text : Refusal → Text
reason_text frame_too_short = codes "frame too short"
reason_text handshake_not_done = codes "handshake not done"
reason_text not_a_server_frame = codes "not a server frame"
reason_text bad_sig_len = codes "bad sig len"
reason_text bad_signature = codes "bad signature"
reason_text aead_decrypt = codes "aead decrypt"
reason_text id_in_use = codes "ID_IN_USE (another tab/device is using these keys)"
reason_text (bad_version v) = codes "BAD_VERSION (server expects v" ++ (decimal v ++ codes ")")
reason_text (error_code e) = codes "error_code=0x" ++ hex_of (e ∷ [])

never_fatal : (r : Refusal) → contains fatal_mark (reason_text r) ≡ false
unfolding contains reason_text decimal hex_of
never_fatal (bad_version v) = ground arith
never_fatal (error_code e) = ground arith
never_fatal frame_too_short = refl
never_fatal _ = refl

-- A client that is not closed manually, whose handshake the server refuses on an open socket with
-- handlers, for any reason that the session gives, waits for another attempt once that socket is
-- closed.
pub refusal_reconnects :
    (r : Refusal) (s : Session) (i : ℕ) (c : Client)
    → c.closed_manually ≡ false
    → (c.sockets i).ready ≡ open_
    → (c.sockets i).wired ≡ true
    → let d = step s (closed i) (on_handshake i (refused (reason_text r)) c) in
      (d.closed_manually ≡ false) × (d.reconnect_timer ≡ some c.reconnect_ms)
unfolding step
refusal_reconnects r s i c m o w = ground (arith, never_fatal r)
