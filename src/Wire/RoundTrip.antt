-- ===== src/Wire/RoundTrip.antt =====
-- The senders of `web/ws_client.js` against `_onPeerMessage` of `web/webrtc.js` at the other end.
use tele.Prelude.{
  ℕ, ◌^◌, ◌<◌, ◌≡◌, sym, true, false, some, [], ◌++◌, append-nil, append_assoc, arith, ltb, length,
  take, drop, length-append, take-append, drop-append,
}
use tele.Bytes.{Text, Bytes, AreBytes, uuid_to_bytes, uuid_from_bytes, u32_le}
use tele.Bytes.Word.{get_u32_le-u32_le}
use tele.Bytes.Uuid.{uuid_to_bytes-uuid_from_bytes}
use tele.Wire.{
  WebText, Frame, Incoming, on_text, on_delivered, on_read, on_msg_delete, on_msg_edit,
  on_file_offer, on_file_chunk, on_file_end, send_text, send_delivery_ack, send_read_ack,
  send_file_offer, send_file_chunk, send_file_end, send_msg_delete, send_msg_edit, with_id,
  on_peer_message,
}

-- The texts that crypto.randomUUID returns: sixteen bytes in the 8-4-4-4-12 form.
pub record IsUuid (id : Text) : Type 0 where
  pub raw : Bytes
  pub bytes : AreBytes raw
  pub sixteen : length raw ≡ 16
  pub form : id ≡ uuid_from_bytes raw

pub IsUuid-bytes : {id : Text} (u : IsUuid id) → uuid_to_bytes id ≡ u.raw
IsUuid-bytes u = rw u.form (uuid_to_bytes-uuid_from_bytes u.raw u.bytes u.sixteen)

-- The calls of the sending methods.
pub data Request (J : Type 0) : Type 0 where
  text : Text → Text → Request J
  delivery_ack read_ack msg_delete : Text → Request J
  msg_edit : Text → Text → Request J
  file_offer : J → Request J
  file_chunk : Text → ℕ → Bytes → Request J
  file_end : Text → Text → Request J

module _ (w : WebText) where
  open w use {Json}

  unfoldable pub frame_of : Request Json → Frame
  frame_of (text id s) = send_text w id s
  frame_of (delivery_ack id) = send_delivery_ack w id
  frame_of (read_ack id) = send_read_ack w id
  frame_of (msg_delete id) = send_msg_delete w id
  frame_of (msg_edit id s) = send_msg_edit w id s
  frame_of (file_offer meta) = send_file_offer w meta
  frame_of (file_chunk id idx bytes) = send_file_chunk w id idx bytes
  frame_of (file_end id msg_id) = send_file_end w id msg_id

  -- The callback that is meant to run at the other end, with the sender's own arguments.
  unfoldable pub meant : Request Json → Incoming Json
  meant (text id s) = on_text id s
  meant (delivery_ack id) = on_delivered id
  meant (read_ack id) = on_read id
  meant (msg_delete id) = on_msg_delete id
  meant (msg_edit id s) = on_msg_edit id s
  meant (file_offer meta) = on_file_offer meta
  meant (file_chunk id idx bytes) = on_file_chunk id idx bytes
  meant (file_end id msg_id) = on_file_end id msg_id

  abbrev pub IsSendable : Request Json → Type 0
  IsSendable (text id s) = IsUuid id × (w.is_clean s ≡ true)
  IsSendable (delivery_ack id) = IsUuid id
  IsSendable (read_ack id) = IsUuid id
  IsSendable (msg_delete id) = IsUuid id
  IsSendable (msg_edit id s) = IsUuid id × (w.is_clean s ≡ true)
  IsSendable (file_offer meta) = Unit {0}
  IsSendable (file_chunk id idx bytes) = IsUuid id × (idx < 2 ^ 32)
  IsSendable (file_end id msg_id) = IsUuid id × IsUuid msg_id

  -- A body that begins with the sixteen bytes of an id passes the test on its length.
  with_id-append :
      {id : Text} (u : IsUuid id) (rest : Bytes) (k : Text → Incoming Json)
      → with_id w (uuid_to_bytes id ++ rest) k ≡ some (k id)
  with_id-append u rest k =
      rw (IsUuid-bytes u, not_short, take-append 16 u.raw rest u.sixteen, ← u.form)
    where
      not_short : ltb (length (u.raw ++ rest)) 16 ≡ false
      not_short = ground (arith, length-append u.raw rest, u.sixteen)

  with_id_alone :
      {id : Text} (u : IsUuid id) (k : Text → Incoming Json)
      → with_id w (uuid_to_bytes id) k ≡ some (k id)
  with_id_alone u k = rw append-nil at (with_id-append u [] k)

  drop_id : {id : Text} (u : IsUuid id) (rest : Bytes) → drop 16 (uuid_to_bytes id ++ rest) ≡ rest
  drop_id u rest = rw (IsUuid-bytes u) (drop-append 16 u.raw rest u.sixteen)

  take_id :
      {id : Text} (u : IsUuid id) (rest : Bytes)
      → uuid_from_bytes (take 16 (uuid_to_bytes id ++ rest)) ≡ id
  take_id u rest = rw (IsUuid-bytes u, take-append 16 u.raw rest u.sixteen) (sym u.form)

  take_id_alone : {id : Text} (u : IsUuid id) → uuid_from_bytes (take 16 (uuid_to_bytes id)) ≡ id
  take_id_alone u = rw append-nil at (take_id u [])

  length_id : {id : Text} (u : IsUuid id) → length (uuid_to_bytes id) ≡ 16
  length_id u = rw (IsUuid-bytes u) u.sixteen

  chunk_long :
      {id : Text} (u : IsUuid id) (idx : ℕ) (bytes : Bytes)
      → ltb (length (uuid_to_bytes id ++ (u32_le idx ++ bytes))) 20 ≡ false
  unfolding u32_le
  chunk_long {id} u idx bytes =
      ground (arith, length-append (uuid_to_bytes id) (u32_le idx ++ bytes), length_id u)

  end_long :
      {id msg_id : Text} (u : IsUuid id) (v : IsUuid msg_id)
      → ltb (length (uuid_to_bytes id ++ uuid_to_bytes msg_id)) 32 ≡ false
  end_long {id} {msg_id} u v =
      ground
        (arith, length-append (uuid_to_bytes id) (uuid_to_bytes msg_id), length_id u, length_id v)

  drop_index :
      {id : Text} (u : IsUuid id) (idx : ℕ) (bytes : Bytes)
      → drop 20 (uuid_to_bytes id ++ (u32_le idx ++ bytes)) ≡ bytes
  unfolding u32_le
  drop_index {id} u idx bytes = rw (← append_assoc (uuid_to_bytes id) (u32_le idx) bytes) (
      drop-append 20 (uuid_to_bytes id ++ u32_le idx) bytes
        (omega (arith, length-append (uuid_to_bytes id) (u32_le idx), length_id u)))

  text_back : (s : Text) → w.is_clean s ≡ true → w.decode (w.encode s) ≡ s
  text_back s h = w.decode-encode s h

  -- Every request comes out at the other end as the callback that is meant, with equal arguments,
  -- if its ids are UUIDs, its texts are clean and its chunk index is below 2^32.
  pub on_peer_message-frame_of :
      (r : Request Json) → IsSendable r → on_peer_message w (frame_of r) ≡ some (meant r)
  unfolding frame_of meant on_peer_message send_text send_delivery_ack send_read_ack send_msg_delete
      send_msg_edit send_file_offer send_file_chunk send_file_end
  on_peer_message-frame_of (text id s) h =
      rw (with_id-append h.0 (w.encode s), drop_id h.0, text_back s h.1)
  on_peer_message-frame_of (delivery_ack id) h = with_id_alone h on_delivered
  on_peer_message-frame_of (read_ack id) h = with_id_alone h on_read
  on_peer_message-frame_of (msg_delete id) h = with_id_alone h on_msg_delete
  on_peer_message-frame_of (msg_edit id s) h =
      rw (with_id-append h.0 (w.encode s), drop_id h.0, text_back s h.1)
  on_peer_message-frame_of (file_offer meta) h =
      rw (w.decode-encode (w.stringify meta) (w.stringify_clean meta), w.parse-stringify meta)
  on_peer_message-frame_of (file_chunk id idx bytes) h = rw (
    chunk_long h.0 idx bytes,
    take_id h.0 (u32_le idx ++ bytes),
    drop_id h.0 (u32_le idx ++ bytes),
    drop_index h.0 idx bytes,
    get_u32_le-u32_le idx bytes h.1,
  )
  on_peer_message-frame_of (file_end id msg_id) h = rw (
    end_long h.0 h.1,
    take_id h.0 (uuid_to_bytes msg_id),
    drop_id h.0 (uuid_to_bytes msg_id),
    take_id_alone h.1,
  )
