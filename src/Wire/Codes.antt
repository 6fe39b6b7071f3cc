-- ===== src/Wire/Codes.antt =====
-- The command codes of peer frames: CMD and MBX of `web/ws_client.js`, CALL and the `_CMD` constants
-- of `web/webrtc.js`, GROUP of `web/group_call.js`.
use tele.Prelude.{ℕ}

abbrev pub cmd_text : ℕ
cmd_text = 0x20

abbrev pub cmd_sound_start : ℕ
cmd_sound_start = 0x21

abbrev pub cmd_sound_stop : ℕ
cmd_sound_stop = 0x22

abbrev pub cmd_sound_stop_all : ℕ
cmd_sound_stop_all = 0x23

abbrev pub cmd_file_offer : ℕ
cmd_file_offer = 0x24

abbrev pub cmd_file_chunk : ℕ
cmd_file_chunk = 0x25

abbrev pub cmd_file_end : ℕ
cmd_file_end = 0x26

abbrev pub cmd_delivery_ack : ℕ
cmd_delivery_ack = 0x27

abbrev pub cmd_msg_delete : ℕ
cmd_msg_delete = 0x28

abbrev pub cmd_msg_edit : ℕ
cmd_msg_edit = 0x29

abbrev pub cmd_read_ack : ℕ
cmd_read_ack = 0x2a

abbrev pub call_request : ℕ
call_request = 0x30

abbrev pub call_accept : ℕ
call_accept = 0x31

abbrev pub call_reject : ℕ
call_reject = 0x32

abbrev pub call_hangup : ℕ
call_hangup = 0x33

abbrev pub call_sdp_offer : ℕ
call_sdp_offer = 0x34

abbrev pub call_sdp_answer : ℕ
call_sdp_answer = 0x35

abbrev pub call_ice_candidate : ℕ
call_ice_candidate = 0x36

abbrev pub call_missed : ℕ
call_missed = 0x37

abbrev pub group_invite : ℕ
group_invite = 0x38

abbrev pub group_join : ℕ
group_join = 0x39

abbrev pub group_bye : ℕ
group_bye = 0x3a

abbrev pub group_offer : ℕ
group_offer = 0x3b

abbrev pub group_answer : ℕ
group_answer = 0x3c

abbrev pub group_ice : ℕ
group_ice = 0x3d

abbrev pub cmd_subscribe : ℕ
cmd_subscribe = 0x40

abbrev pub cmd_unsubscribe : ℕ
cmd_unsubscribe = 0x41

abbrev pub cmd_peer_online : ℕ
cmd_peer_online = 0x42

abbrev pub cmd_peer_offline : ℕ
cmd_peer_offline = 0x43

abbrev pub cmd_wake : ℕ
cmd_wake = 0x48

abbrev pub cmd_push_register : ℕ
cmd_push_register = 0x49

abbrev pub mbx_store : ℕ
mbx_store = 0x01

abbrev pub mbx_fetch_next : ℕ
mbx_fetch_next = 0x02

abbrev pub mbx_delete : ℕ
mbx_delete = 0x03

abbrev pub mbx_delivery : ℕ
mbx_delivery = 0x10

abbrev pub mbx_empty : ℕ
mbx_empty = 0x11

abbrev pub mbx_too_big : ℕ
mbx_too_big = 0x12

abbrev pub mbx_mailbox_full : ℕ
mbx_mailbox_full = 0x13

abbrev pub mbx_stored : ℕ
mbx_stored = 0x14

abbrev pub mbx_deleted : ℕ
mbx_deleted = 0x15

abbrev pub mbx_not_found : ℕ
mbx_not_found = 0x16
