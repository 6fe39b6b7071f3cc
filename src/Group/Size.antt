-- ===== src/Group/Size.antt =====
-- How many members a call of `web/group_call.js` has: MAX_MEMBERS in start and in _onInvite.
use tele.Prelude.{
  ℕ, suc, ◌+◌, ◌≤◌, ◌≡◌, refl, Bool, false, Option, none, some, List, [], ◌∷◌, ◌++◌, arith, length,
  take, length-append, length-take,
}
use tele.Bytes.{Text, Bytes}
use tele.Wire.Codes.{group_join}
use tele.Group.Step.{Op, started, accepted, rejected, left, camera, peer_sent, apply, apply_all}
use tele.Group.Calls.{
  ingest_entry, ingest_roster, for_others, broadcast, leave_all, teardown, after_media, open_media,
  media_result, start, accept_invite, reject_invite, leave,
}
use tele.Group.Peers.{
  on_invite, connect_to, on_join, on_bye, add_all, on_offer, on_answer, on_ice, on_room_message,
  in_room, on_peer_message,
}
use tele.Group.{
  max_members, Member, Entry, Invite, Waiting, host_waits, guest_waits, Effect, send_invite,
  send_room, participant_leave, add_candidate, state_active, Group, new_group, emit, is_in_call,
  set_member, Payload, invite, join, bye, offer, answer, ice,
}

-- The roster that a client has been shown.
abbrev pub IsSmallInvite : Option Invite → Type 0
IsSmallInvite none = Unit {0}
IsSmallInvite (some inv) = length inv.roster ≤ max_members

pub record Inv (g : Group) : Type 0 where
  pub size : length g.members ≤ max_members
  pub invited : IsSmallInvite g.pending_invite
  pub idle : is_in_call g ≡ false → g.members ≡ []

length-set_member : (m : Member) (ms : List Member) → length (set_member m ms) ≡ length ms
unfolding set_member
length-set_member m [] = refl
length-set_member m (n ∷ ms) = ground (arith, length-set_member m ms)

-- A step that leaves the room and the invite alone and adds no member.
record Keeps (g h : Group) : Type 0 where
  same_size : length h.members ≡ length g.members
  same_room : h.room ≡ g.room
  same_invite : h.pending_invite ≡ g.pending_invite

-- A step that leaves the room and the invite alone and adds at most n members.
record Grows (n : ℕ) (g h : Group) : Type 0 where
  new_size : length h.members ≤ n + length g.members
  kept_room : h.room ≡ g.room
  kept_invite : h.pending_invite ≡ g.pending_invite

nil_of_length : (ms : List Member) → length ms ≡ 0 → ms ≡ []
nil_of_length [] h = refl
nil_of_length (m ∷ ms) h = ground arith

length-snoc : (ms : List Member) (m : Member) → length (ms ++ m ∷ []) ≡ suc (length ms)
length-snoc ms m = ground (arith, length-append ms (m ∷ []))

Keeps-Inv : (g h : Group) → Keeps g h → Inv g → Inv h
Keeps-Inv g h k i = ground (arith, nil_of_length h.members)

module _ (my_id : Bytes) (my_hex : Text) (add_peer_from_qr : Text → Option Bytes) where
  for_others-Keeps :
      (f : Member → Effect) (ms : List Member) (g : Group)
      → Keeps g (for_others my_id my_hex add_peer_from_qr f ms g)
  unfolding for_others
  for_others-Keeps f [] g = ground arith
  for_others-Keeps f (m ∷ ms) g =
      ground (arith, for_others-Keeps f ms g, for_others-Keeps f ms (emit (f m) g))

  leave_all-Keeps :
      (ms : List Member) (g : Group) → Keeps g (leave_all my_id my_hex add_peer_from_qr ms g)
  unfolding leave_all
  leave_all-Keeps [] g = ground arith
  leave_all-Keeps (m ∷ ms) g =
      ground (arith, leave_all-Keeps ms g, leave_all-Keeps ms (emit (participant_leave m.id_hex) g))

  add_all-Keeps :
      (k : Text) (cs : List Text) (g : Group)
      → Keeps g (add_all my_id my_hex add_peer_from_qr k cs g)
  unfolding add_all
  add_all-Keeps k [] g = ground arith
  add_all-Keeps k (c ∷ cs) g = ground (arith, add_all-Keeps k cs (emit (add_candidate k c) g))

  ingest_entry-Grows :
      (r : Entry) (g : Group) → Grows 1 g (ingest_entry my_id my_hex add_peer_from_qr r g)
  unfolding ingest_entry
  ingest_entry-Grows r g = grind (arith, length-snoc)

  ingest_roster-Grows :
      (rs : List Entry) (g : Group)
      → Grows (length rs) g (ingest_roster my_id my_hex add_peer_from_qr rs g)
  unfolding ingest_roster
  ingest_roster-Grows [] g = ground arith
  ingest_roster-Grows (r ∷ rs) g = ground (
    arith,
    ingest_entry-Grows r g,
    ingest_roster-Grows rs (ingest_entry my_id my_hex add_peer_from_qr r g),
  )

  after_media-Keeps :
      (w : Waiting) (g : Group) → Keeps g (after_media my_id my_hex add_peer_from_qr w g)
  unfolding after_media broadcast
  after_media-Keeps (host_waits roster) g = ground (
    arith,
    for_others-Keeps (λ (m : Member). send_invite m.id g.room roster) g.members
        (emit state_active g),
  )
  after_media-Keeps guest_waits g = ground (
    arith,
    for_others-Keeps (λ (m : Member). send_room m.id group_join g.room) g.members
        (emit state_active g),
  )

  open_media-Keeps :
      (w : Waiting) (g : Group) → Keeps g (open_media my_id my_hex add_peer_from_qr w g)
  unfolding open_media
  open_media-Keeps w g = ground (arith, after_media-Keeps w g)

  media_result-Keeps :
      (ok : Bool) (g : Group) → Keeps g (media_result my_id my_hex add_peer_from_qr ok g)
  unfolding media_result
  media_result-Keeps ok g = grind (arith, after_media-Keeps)

  teardown-Inv : (g : Group) → Inv g → Inv (teardown my_id my_hex add_peer_from_qr g)
  unfolding teardown
  teardown-Inv g i = ground (arith, leave_all-Keeps g.members g)

  start-Inv :
      (room : Text) (roster : List Entry) (g : Group)
      → Inv g
      → Inv (start my_id my_hex add_peer_from_qr room roster g)
  unfolding start
  start-Inv room roster g i =
      let roster' = take max_members roster in
      let g1 = record g { room = some room } in
      let g2 = ingest_roster my_id my_hex add_peer_from_qr roster' g1 in
      ground (
        arith,
        length-take max_members roster,
        ingest_roster-Grows roster' g1,
        open_media-Keeps (host_waits roster') g2,
      )

  accept_invite-Inv :
      (room : Text) (g : Group) → Inv g → Inv (accept_invite my_id my_hex add_peer_from_qr room g)
  unfolding accept_invite
  accept_invite-Inv room g i = grind (arith, ingest_roster-Grows, open_media-Keeps)

  reject_invite-Inv :
      (room : Text) (g : Group) → Inv g → Inv (reject_invite my_id my_hex add_peer_from_qr room g)
  unfolding reject_invite
  reject_invite-Inv room g i = ground arith

  leave-Inv : (g : Group) → Inv g → Inv (leave my_id my_hex add_peer_from_qr g)
  unfolding leave broadcast
  leave-Inv g i = grind (arith, Keeps-Inv, for_others-Keeps, teardown-Inv)

  on_invite-Inv :
      (from room : Text) (roster : List Entry) (g : Group)
      → Inv g
      → Inv (on_invite my_id my_hex add_peer_from_qr from room roster g)
  unfolding on_invite
  on_invite-Inv from room roster g i = ground arith

  connect_to-Keeps :
      (m : Member) (g : Group) → Keeps g (connect_to my_id my_hex add_peer_from_qr m g)
  unfolding connect_to
  connect_to-Keeps m g = grind (arith, length-set_member)

  on_join-Keeps : (m : Member) (g : Group) → Keeps g (on_join my_id my_hex add_peer_from_qr m g)
  unfolding on_join
  on_join-Keeps m g = grind (arith, length-set_member, connect_to-Keeps)

  on_bye-Inv : (m : Member) (g : Group) → Inv g → Inv (on_bye my_id my_hex add_peer_from_qr m g)
  unfolding on_bye
  on_bye-Inv m g i = grind (arith, length-set_member, leave_all-Keeps, nil_of_length)

  on_offer-Keeps :
      (ok : Bool) (m : Member) (g : Group) → Keeps g (on_offer my_id my_hex add_peer_from_qr ok m g)
  unfolding on_offer
  on_offer-Keeps ok m g = grind (arith, length-set_member, add_all-Keeps)

  on_answer-Keeps :
      (ok : Bool) (m : Member) (g : Group)
      → Keeps g (on_answer my_id my_hex add_peer_from_qr ok m g)
  unfolding on_answer
  on_answer-Keeps ok m g = grind (arith, length-set_member, add_all-Keeps)

  on_ice-Keeps :
      (c : Text) (m : Member) (g : Group) → Keeps g (on_ice my_id my_hex add_peer_from_qr c m g)
  unfolding on_ice
  on_ice-Keeps c m g = grind (arith, length-set_member)

  on_room_message-Inv :
      (p : Payload) (m : Member) (g : Group)
      → Inv g
      → Inv (on_room_message my_id my_hex add_peer_from_qr p m g)
  unfolding on_room_message
  on_room_message-Inv (invite r roster) m g i = i
  on_room_message-Inv (join r) m g i = Keeps-Inv _ _ (on_join-Keeps m g) i
  on_room_message-Inv (bye r) m g i = on_bye-Inv m g i
  on_room_message-Inv (offer r ok) m g i = Keeps-Inv _ _ (on_offer-Keeps ok m g) i
  on_room_message-Inv (answer r ok) m g i = Keeps-Inv _ _ (on_answer-Keeps ok m g) i
  on_room_message-Inv (ice r none) m g i = i
  on_room_message-Inv (ice r (some c)) m g i = Keeps-Inv _ _ (on_ice-Keeps c m g) i

  in_room-Inv :
      (from : Text) (p : Payload) (g : Group)
      → Inv g
      → Inv (in_room my_id my_hex add_peer_from_qr from p g)
  unfolding in_room
  in_room-Inv from p g i = grind (arith, on_room_message-Inv)

  on_peer_message-Inv :
      (from : Text) (p : Payload) (g : Group)
      → Inv g
      → Inv (on_peer_message my_id my_hex add_peer_from_qr from p g)
  unfolding on_peer_message
  on_peer_message-Inv from (invite r roster) g i = on_invite-Inv from r roster g i
  on_peer_message-Inv from (join r) g i = in_room-Inv from (join r) g i
  on_peer_message-Inv from (bye r) g i = in_room-Inv from (bye r) g i
  on_peer_message-Inv from (offer r ok) g i = in_room-Inv from (offer r ok) g i
  on_peer_message-Inv from (answer r ok) g i = in_room-Inv from (answer r ok) g i
  on_peer_message-Inv from (ice r c) g i = in_room-Inv from (ice r c) g i

  apply-Inv : (o : Op) (g : Group) → Inv g → Inv (apply my_id my_hex add_peer_from_qr o g)
  unfolding apply
  apply-Inv (started room roster) g i = start-Inv room roster g i
  apply-Inv (accepted room) g i = accept_invite-Inv room g i
  apply-Inv (rejected room) g i = reject_invite-Inv room g i
  apply-Inv left g i = leave-Inv g i
  apply-Inv (camera ok) g i = Keeps-Inv _ _ (media_result-Keeps ok g) i
  apply-Inv (peer_sent from p) g i = on_peer_message-Inv from p g i

  apply_all-Inv :
      (os : List Op) (g : Group) → Inv g → Inv (apply_all my_id my_hex add_peer_from_qr os g)
  unfolding apply_all
  apply_all-Inv [] g i = i
  apply_all-Inv (o ∷ os) g i = apply_all-Inv os _ (apply-Inv o g i)

-- Whatever the user does, whatever the camera answers and whatever frames come from the peers, in
-- any order: the call never has more than MAX_MEMBERS members, an invite that is shown never has a
-- longer roster, and outside a call there are no members.
pub members_bounded :
    (my_id : Bytes) (my_hex : Text) (add_peer_from_qr : Text → Option Bytes) (os : List Op)
    → Inv (apply_all my_id my_hex add_peer_from_qr os new_group)
members_bounded my_id my_hex add_peer_from_qr os =
    apply_all-Inv my_id my_hex add_peer_from_qr os new_group (ground arith)
