-- ===== src/Group/Step.antt =====
-- What can happen to a client that takes part in group calls of `web/group_call.js`.
use tele.Prelude.{Bool, Option, List, [], ◌∷◌}
use tele.Bytes.{Text, Bytes}
use tele.Group.Calls.{media_result, start, accept_invite, reject_invite, leave}
use tele.Group.Peers.{on_peer_message}
use tele.Group.{Entry, Group, Payload}

-- The text of `started` is the room that is drawn.
pub data Op : Type 0 where
  started : Text → List Entry → Op
  accepted rejected : Text → Op
  left : Op
  camera : Bool → Op
  peer_sent : Text → Payload → Op

module _ (my_id : Bytes) (my_hex : Text) (add_peer_from_qr : Text → Option Bytes) where
  unfoldable pub apply : Op → Group → Group
  apply (started room roster) g = start my_id my_hex add_peer_from_qr room roster g
  apply (accepted room) g = accept_invite my_id my_hex add_peer_from_qr room g
  apply (rejected room) g = reject_invite my_id my_hex add_peer_from_qr room g
  apply left g = leave my_id my_hex add_peer_from_qr g
  apply (camera ok) g = media_result my_id my_hex add_peer_from_qr ok g
  apply (peer_sent from p) g = on_peer_message my_id my_hex add_peer_from_qr from p g

  unfoldable pub apply_all : List Op → Group → Group
  unfolding apply
  apply_all [] g = g
  apply_all (o ∷ os) g = apply_all os (apply o g)
