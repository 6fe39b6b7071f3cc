-- ===== src/Group/Peers.antt =====
-- What a client of `web/group_call.js` does with the frames of the other members.
use tele.Prelude.{
  Bool, true, false, ◌||◌, Option, none, some, List, [], ◌∷◌, ◌++◌, ltb, ◌==◌, if◌then◌else◌, ◌===◌,
  length,
}
use tele.Bytes.{Text, Bytes}
use tele.Table.{text_lt}
use tele.Wire.Codes.{group_join, group_offer, group_answer}
use tele.Group.Calls.{teardown}
use tele.Group.{
  max_members, stable, have_local_offer, Pc, Member, Entry, send_room, send_sdp, on_invite_shown,
  participant_join, participant_leave, add_candidate, log_line, Group, emit, is_in_call,
  count_active, participant_count, find_member, set_member, with_member, is_expecting, is_ready,
  Payload, invite, join, bye, offer, answer, ice, room_of,
}

module _ (my_id : Bytes) (my_hex : Text) (add_peer_from_qr : Text → Option Bytes) where
  -- _onInvite of a payload with a room and a roster.
  unfoldable pub on_invite : Text → Text → List Entry → Group → Group
  on_invite from_hex room roster g = elim g.pending_invite [
    | some inv ↦ g
    | none ↦
        if is_in_call g || room === [] || ltb max_members (length roster)
        then g
        else emit (on_invite_shown room) (record g {
          pending_invite = some (record { room = room; roster = roster; host_hex = from_hex });
        })
  ]

  -- _makePeer and the offer of _connectTo.
  unfoldable pub connect_to : Member → Group → Group
  unfolding set_member
  connect_to m g = elim m.pc [
    | some pc ↦ g
    | none ↦
        let m' = record m {
          pc = some (record { signaling = have_local_offer; has_remote = false });
        } in
        emit (send_sdp m.id group_offer g.room) (with_member m' g)
  ]

  -- _onJoin
  unfoldable pub on_join : Member → Group → Group
  unfolding connect_to set_member text_lt
  on_join m g =
      if m.active
      then g
      else (let m' = record m { active = true } in
          let g' =
            emit (send_room m.id group_join g.room)
              (emit (participant_join m.id_hex) (with_member m' g)) in
          if text_lt my_hex m.id_hex then connect_to m' g' else g')

  -- _onBye
  unfoldable pub on_bye : Member → Group → Group
  unfolding set_member count_active teardown
  on_bye m g =
      let m' = record m { pc = none; pending_ice = []; active = false } in
      let g' = emit (participant_leave m.id_hex) (with_member m' g) in
      if participant_count g' == 0 then teardown my_id my_hex add_peer_from_qr g' else g'

  -- The loop of _drainIce.
  unfoldable pub add_all : Text → List Text → Group → Group
  add_all k [] g = g
  add_all k (c ∷ cs) g = add_all k cs (emit (add_candidate k c) g)

  -- _onOffer; `ok` says whether the browser takes the description.
  unfoldable pub on_offer : Bool → Member → Group → Group
  unfolding set_member add_all
  on_offer ok m g =
      let pc : Pc = elim m.pc [
        | some pc ↦ pc
        | none ↦ record { signaling = stable; has_remote = false }
      ] in
      if ok
      then (let m' = record m {
        pc = some (record { signaling = stable; has_remote = true });
        pending_ice = [];
        active = true;
      } in
          let g' = emit (send_sdp m.id group_answer g.room) (add_all m.id_hex m.pending_ice g) in
          let g2 = with_member m' g' in
          if m.active then g2 else emit (participant_join m.id_hex) g2)
      else emit log_line (with_member (record m { pc = some pc }) g)

  -- _onAnswer
  unfoldable pub on_answer : Bool → Member → Group → Group
  unfolding set_member add_all
  on_answer ok m g =
      if is_expecting m.pc
      then (if ok
          then with_member
              (record m {
                pc = some (record { signaling = stable; has_remote = true });
                pending_ice = [];
              })
              (add_all m.id_hex m.pending_ice g)
          else emit log_line g)
      else g

  -- _onIce of a payload with a candidate.
  unfoldable pub on_ice : Text → Member → Group → Group
  unfolding set_member
  on_ice cand m g =
      if is_ready m.pc
      then emit (add_candidate m.id_hex cand) g
      else with_member (record m { pending_ice = m.pending_ice ++ (cand ∷ []) }) g

  -- The switch of _onPeerMessage.
  unfoldable pub on_room_message : Payload → Member → Group → Group
  unfolding on_join on_bye on_offer on_answer on_ice
  on_room_message (invite r roster) m g = g
  on_room_message (join r) m g = on_join m g
  on_room_message (bye r) m g = on_bye m g
  on_room_message (offer r ok) m g = on_offer ok m g
  on_room_message (answer r ok) m g = on_answer ok m g
  on_room_message (ice r c) m g = elim c [ none ↦ g | some cand ↦ on_ice cand m g ]

  abbrev pub is_here : Text → Option Text → Bool
  is_here r none = false
  is_here r (some room) = r === room

  -- What _onPeerMessage does with a frame of the room.
  unfoldable pub in_room : Text → Payload → Group → Group
  unfolding on_room_message find_member
  in_room from_hex p g =
      if is_here (room_of p) g.room
      then elim (find_member from_hex g.members) [ none ↦ g | some m ↦ on_room_message p m g ]
      else g

  -- _onPeerMessage of a payload that parses.
  unfoldable pub on_peer_message : Text → Payload → Group → Group
  unfolding on_invite in_room
  on_peer_message from_hex (invite r roster) g = on_invite from_hex r roster g
  on_peer_message from_hex (join r) g = in_room from_hex (join r) g
  on_peer_message from_hex (bye r) g = in_room from_hex (bye r) g
  on_peer_message from_hex (offer r ok) g = in_room from_hex (offer r ok) g
  on_peer_message from_hex (answer r ok) g = in_room from_hex (answer r ok) g
  on_peer_message from_hex (ice r c) g = in_room from_hex (ice r c) g
