-- ===== src/Storage/Tests.antt =====
-- The storage on small states.
use tele.Prelude.{◌≡◌, refl, true, false, some, List, [], ◌∷◌, ◌===◌, codes}
use tele.Bytes.{Text}
use tele.Storage.{outgoing, pending, delivered, Message, Store, empty_store}
use tele.Storage.Rows.{is_pending_for}
use tele.Storage.Outbox.{
  Inv, Op, op_save_outgoing, op_save_incoming, op_mark_status, apply_all, outbox_sound,
}

abbrev alice : Text
alice = codes "a1"

abbrev bob : Text
bob = codes "b2"

-- One message to each of two peers and one from the first.
abbrev busy_ops : List Op
busy_ops =
    op_save_outgoing (codes "m1") 100 alice (codes "hi")
    ∷ op_save_incoming alice (codes "m2") (codes "yo") 101 101
    ∷ op_save_outgoing (codes "m3") 102 bob (codes "hey")
    ∷ op_mark_status (codes "m1") delivered
    ∷ []

abbrev busy : Store
busy = apply_all busy_ops empty_store

outbox_sound_example : Inv busy
outbox_sound_example = outbox_sound busy_ops

abbrev first_message : Message
first_message = record {
  peer_id = alice;
  dir = outgoing;
  body = codes "hi";
  ts = 100;
  seq = 1;
  status = pending;
  edited = false;
}

first_message_pending : is_pending_for alice (some first_message) ≡ true
unfolding ◌===◌
first_message_pending = refl
