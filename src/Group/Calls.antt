-- ===== src/Group/Calls.antt =====
-- What the user does with a call of `web/group_call.js`, and how it ends.
use tele.Prelude.{
  ℕ, Bool, true, false, not, ◌&&◌, ◌||◌, Option, none, some, List, [], ◌∷◌, ◌++◌, ltb,
  if◌then◌else◌, ◌===◌, length, take,
}
use tele.Bytes.{Text, Bytes, hex_of, hex_to_bytes}
use tele.Wire.Codes.{group_join, group_bye}
use tele.Group.{
  max_members, Member, Entry, Waiting, host_waits, guest_waits, Effect, send_invite, send_room,
  participant_leave, local_stream, state_active, state_ended, log_line, Group, emit, is_in_call,
  has_member, fresh_member, add_member,
}

-- The id and the hex id of this client; what addPeerFromQr of the session returns, `none` for an
-- exception.
module _ (my_id : Bytes) (my_hex : Text) (add_peer_from_qr : Text → Option Bytes) where
  -- One round of the loop of _ingestRoster.
  unfoldable pub ingest_entry : Entry → Group → Group
  unfolding has_member
  ingest_entry r g =
      if r.id === my_hex
      then record g { members = add_member (fresh_member my_id r.id r true) g.members }
      else elim (add_peer_from_qr r.qr) [
        | some id ↦ record g {
          members = add_member (fresh_member id (hex_of id) r false) g.members;
        }
        | none ↦
            let id = hex_to_bytes r.id in
            record (emit log_line g) {
              members = add_member (fresh_member id (hex_of id) r false) g.members;
            }
      ]

  -- _ingestRoster
  unfoldable pub ingest_roster : List Entry → Group → Group
  unfolding ingest_entry
  ingest_roster [] g = g
  ingest_roster (r ∷ roster) g = ingest_roster roster (ingest_entry r g)

  -- A loop over the members other than this client.
  unfoldable pub for_others : (Member → Effect) → List Member → Group → Group
  for_others f [] g = g
  for_others f (m ∷ ms) g = for_others f ms (if m.id_hex === my_hex then g else emit (f m) g)

  -- _broadcast
  unfoldable pub broadcast : ℕ → Option Text → Group → Group
  unfolding for_others
  broadcast cmd room g = for_others (λ m. send_room m.id cmd room) g.members g

  -- _closePeer on every member, and the leave of each active one that is not this client.
  unfoldable pub leave_all : List Member → Group → Group
  leave_all [] g = g
  leave_all (m ∷ ms) g =
      leave_all ms
        (if not (m.id_hex === my_hex) && m.active then emit (participant_leave m.id_hex) g else g)

  -- _teardown
  unfoldable pub teardown : Group → Group
  unfolding leave_all
  teardown g =
      let g' = leave_all g.members g in
      emit state_ended
        (emit (local_stream false) (record g' { streaming = false; members = []; room = none }))

  -- What follows `_openMedia` in start and in acceptInvite.
  unfoldable pub after_media : Waiting → Group → Group
  unfolding for_others broadcast
  after_media (host_waits roster) g =
      let g' = emit state_active g in
      for_others (λ m. send_invite m.id g'.room roster) g'.members g'
  after_media guest_waits g = let g' = emit state_active g in broadcast group_join g'.room g'

  -- _openMedia up to its wait; an open stream is used at once.
  unfoldable pub open_media : Waiting → Group → Group
  unfolding after_media
  open_media w g =
      if g.streaming then after_media w g else record g { waiting = g.waiting ++ (w ∷ []) }

  -- The camera is granted or refused to the first that waits for it.
  unfoldable pub media_result : Bool → Group → Group
  unfolding after_media
  media_result ok g = elim g.waiting [
    | [] ↦ g
    | w ∷ ws ↦
        let g' = record g { waiting = ws } in
        if ok
        then after_media w (emit (local_stream true) (record g' { streaming = true }))
        else emit log_line g'
  ]

  -- start, with the room that randomRoom draws.
  unfoldable pub start : Text → List Entry → Group → Group
  unfolding ingest_roster open_media
  start room roster g =
      if is_in_call g || ltb (length roster) 2
      then emit log_line g
      else (let roster' = take max_members roster in
          open_media (host_waits roster') (ingest_roster roster' (record g { room = some room })))

  -- acceptInvite
  unfoldable pub accept_invite : Text → Group → Group
  unfolding ingest_roster open_media
  accept_invite room g =
      let g' = record g { pending_invite = none } in
      elim g.pending_invite [
        | none ↦ emit log_line g'
        | some inv ↦
            if not (inv.room === room) || is_in_call g
            then emit log_line g'
            else open_media guest_waits
                (ingest_roster inv.roster (record g' { room = some inv.room }))
      ]

  -- rejectInvite
  unfoldable pub reject_invite : Text → Group → Group
  reject_invite room g = elim g.pending_invite [
    | none ↦ g
    | some inv ↦ if inv.room === room then record g { pending_invite = none } else g
  ]

  -- leave
  unfoldable pub leave : Group → Group
  unfolding broadcast teardown
  leave g = if is_in_call g then teardown (broadcast group_bye g.room g) else g
