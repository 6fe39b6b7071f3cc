-- ===== src/Wire.antt =====
-- The bodies of peer frames: what the senders of `web/ws_client.js` write, and how
-- `CallManager._onPeerMessage` of `web/webrtc.js` reads it.
pub mod Codes
pub mod RoundTrip
pub mod Tests
use tele.Prelude.{
  ℕ, zero, suc, ◌-◌, ◌%◌, ◌≡◌, Bool, true, Option, none, some, List, [], ◌∷◌, ◌++◌, ltb, ◌==◌,
  if◌then◌else◌, length, take, drop, slice,
}
use tele.Bytes.{Text, Bytes, uuid_to_bytes, uuid_from_bytes, concat_u8, u32_le, get_u32_le}
use tele.Wire.Codes.{
  cmd_text, cmd_sound_start, cmd_sound_stop, cmd_sound_stop_all, cmd_file_offer, cmd_file_chunk,
  cmd_file_end, cmd_delivery_ack, cmd_msg_delete, cmd_msg_edit, cmd_read_ack, call_request,
  call_accept, call_reject, call_hangup, call_sdp_offer, call_sdp_answer, call_ice_candidate,
  call_missed, cmd_subscribe, cmd_unsubscribe, cmd_wake, cmd_push_register, mbx_fetch_next,
}

-- TextEncoder, TextDecoder and JSON of the browser. `is_clean` tells the texts that UTF-8 carries
-- unchanged: no lone surrogate, no leading byte-order mark.
pub record WebText : Type 1 where
  pub Json : Type 0
  pub encode : Text → Bytes
  pub decode : Bytes → Text
  pub is_clean : Text → Bool
  pub decode-encode : (s : Text) → is_clean s ≡ true → decode (encode s) ≡ s
  pub stringify : Json → Text
  pub parse : Text → Option Json
  pub parse-stringify : (j : Json) → parse (stringify j) ≡ some j
  pub stringify_clean : (j : Json) → is_clean (stringify j) ≡ true

-- The arguments of `_sendPeer` and `_sendServer` behind the addressee.
pub record Frame : Type 0 where
  pub cmd : ℕ
  pub body : Bytes

-- A call of `ui` or of a method of the manager, with the arguments read from the body.
pub data Incoming (J : Type 0) : Type 0 where
  on_text : Text → Text → Incoming J
  on_delivered on_read on_msg_delete : Text → Incoming J
  on_msg_edit : Text → Text → Incoming J
  on_file_offer : J → Incoming J
  on_file_chunk : Text → ℕ → Bytes → Incoming J
  on_file_end : Text → Text → Incoming J
  on_missed_call on_request on_accept on_reject on_hangup : Incoming J
  on_sdp_offer on_sdp_answer on_candidate : Text → Incoming J

abbrev zeros : ℕ → Bytes
zeros zero = []
zeros (suc n) = 0 ∷ zeros n

-- `body.set(u8, 0)` in front of what is written behind the n-th byte.
unfoldable pub field : ℕ → Bytes → Bytes
field n u8 = take n u8 ++ zeros (n - length u8)

unfoldable pub send_sound_stop_all : Frame
send_sound_stop_all = record { cmd = cmd_sound_stop_all; body = [] }

unfoldable pub subscribe : List Bytes → Frame
unfolding concat_u8
subscribe x_pubs = record { cmd = cmd_subscribe; body = concat_u8 x_pubs }

unfoldable pub unsubscribe : List Bytes → Frame
unfolding concat_u8
unsubscribe x_pubs = record { cmd = cmd_unsubscribe; body = concat_u8 x_pubs }

unfoldable pub send_wake : Bytes → Bool → Frame
unfolding field
send_wake target_id is_call = record {
  cmd = cmd_wake;
  body = field 8 (take 8 target_id) ++ ((if is_call then 1 else 0) ∷ []);
}

-- The op-code of the mailbox is the command of the frame.
unfoldable pub mailbox_send : ℕ → Bytes → Bytes → Frame
unfolding field
mailbox_send op recipient_x_pub env = record { cmd = op; body = field 32 recipient_x_pub ++ env }

unfoldable pub mailbox_fetch_next : Frame
mailbox_fetch_next = record { cmd = mbx_fetch_next; body = [] }

module _ (w : WebText) where
  open w use {Json, encode, decode, stringify, parse}

  unfoldable pub send_text : Text → Text → Frame
  send_text msg_id text = record { cmd = cmd_text; body = uuid_to_bytes msg_id ++ encode text }

  unfoldable pub send_delivery_ack : Text → Frame
  send_delivery_ack msg_id = record { cmd = cmd_delivery_ack; body = uuid_to_bytes msg_id }

  unfoldable pub send_read_ack : Text → Frame
  send_read_ack msg_id = record { cmd = cmd_read_ack; body = uuid_to_bytes msg_id }

  unfoldable pub send_file_offer : Json → Frame
  send_file_offer meta = record { cmd = cmd_file_offer; body = encode (stringify meta) }

  unfoldable pub send_file_chunk : Text → ℕ → Bytes → Frame
  send_file_chunk file_id chunk_idx bytes = record {
    cmd = cmd_file_chunk;
    body = uuid_to_bytes file_id ++ (u32_le chunk_idx ++ bytes);
  }

  unfoldable pub send_file_end : Text → Text → Frame
  send_file_end file_id msg_id = record {
    cmd = cmd_file_end;
    body = uuid_to_bytes file_id ++ uuid_to_bytes msg_id;
  }

  unfoldable pub send_msg_delete : Text → Frame
  send_msg_delete msg_id = record { cmd = cmd_msg_delete; body = uuid_to_bytes msg_id }

  unfoldable pub send_msg_edit : Text → Text → Frame
  send_msg_edit msg_id text = record {
    cmd = cmd_msg_edit;
    body = uuid_to_bytes msg_id ++ encode text;
  }

  unfoldable pub send_sound_start : ℕ → Frame
  send_sound_start sound_id = record { cmd = cmd_sound_start; body = sound_id % 256 ∷ [] }

  unfoldable pub send_sound_stop : ℕ → Frame
  send_sound_stop sound_id = record { cmd = cmd_sound_stop; body = sound_id % 256 ∷ [] }

  unfoldable pub send_push_register : ℕ → Text → Frame
  send_push_register kind token = record {
    cmd = cmd_push_register;
    body = kind % 256 ∷ encode token;
  }

  -- The test on the length comes before anything is read from the body.
  abbrev with_id : Bytes → (Text → Incoming Json) → Option (Incoming Json)
  with_id body k =
      if ltb (length body) 16 then none else some (k (uuid_from_bytes (slice 0 16 body)))

  -- `none` is a message that is dropped, and no method is called.
  unfoldable pub on_peer_message : Frame → Option (Incoming Json)
  on_peer_message msg =
      if cmd == cmd_text
      then with_id body (λ id. on_text id (decode (drop 16 body)))
      else if cmd == cmd_delivery_ack
      then with_id body on_delivered
      else if cmd == cmd_read_ack
      then with_id body on_read
      else if cmd == cmd_msg_delete
      then with_id body on_msg_delete
      else if cmd == cmd_msg_edit
      then with_id body (λ id. on_msg_edit id (decode (drop 16 body)))
      else if cmd == cmd_file_offer
      then elim (parse (decode body)) [ none ↦ none | some meta ↦ some (on_file_offer meta) ]
      else if cmd == cmd_file_chunk
      then (if ltb (length body) 20
          then none
          else some (
              on_file_chunk (uuid_from_bytes (slice 0 16 body)) (get_u32_le (drop 16 body))
                (drop 20 body)))
      else if cmd == cmd_file_end
      then (if ltb (length body) 32
          then none
          else some (
              on_file_end (uuid_from_bytes (slice 0 16 body)) (uuid_from_bytes (slice 16 32 body))))
      else if cmd == call_missed
      then some on_missed_call
      else if cmd == call_request
      then some on_request
      else if cmd == call_accept
      then some on_accept
      else if cmd == call_reject
      then some on_reject
      else if cmd == call_hangup
      then some on_hangup
      else if cmd == call_sdp_offer
      then some (on_sdp_offer (decode body))
      else if cmd == call_sdp_answer
      then some (on_sdp_answer (decode body))
      else if cmd == call_ice_candidate
      then some (on_candidate (decode body))
      else none
    where
      open msg use {cmd, body}
