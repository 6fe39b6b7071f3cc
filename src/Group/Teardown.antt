-- ===== src/Group/Teardown.antt =====
-- How a call of `web/group_call.js` ends: leave, _onBye and _teardown.
use tele.Prelude.{
  ◌<◌, ◌≡◌, refl, ◌≢◌, ◌⊎◌, true, false, Option, none, List, [], ◌∷◌, arith, ===_iff,
}
use tele.Bytes.{Text, Bytes}
use tele.Group.Members.{find_member_key}
use tele.Group.Calls.{for_others, broadcast, leave_all, teardown, after_media, media_result, leave}
use tele.Group.Peers.{on_bye, on_room_message, in_room, on_peer_message}
use tele.Group.{
  Member, Waiting, host_waits, guest_waits, Effect, local_stream, state_active, Group, emit,
  is_in_call, count_active, set_member, bye,
}

-- The member under the key k is there and active.
abbrev pub HasActive : Text → List Member → Type 0
HasActive k [] = ⊥
HasActive k (m ∷ ms) = ((m.active ≡ true) × (m.id_hex ≡ k)) ⊎ HasActive k ms

count_active-HasActive : (k : Text) (ms : List Member) → HasActive k ms → 0 < count_active ms
unfolding count_active
count_active-HasActive k [] h = absurd h
count_active-HasActive k (m ∷ ms) h = ground (arith, count_active-HasActive k ms)

set_member-HasActive :
    (k : Text) (m : Member) (ms : List Member)
    → m.id_hex ≢ k
    → HasActive k ms
    → HasActive k (set_member m ms)
unfolding set_member
set_member-HasActive k m [] d h = h
set_member-HasActive k m (n ∷ ms) d h =
    ground (arith, set_member-HasActive k m ms d, ===_iff n.id_hex m.id_hex)

module _ (my_id : Bytes) (my_hex : Text) (add_peer_from_qr : Text → Option Bytes) where
  pub record Stays (g h : Group) : Type 0 where
    pub self_active : HasActive my_hex h.members
    pub same_room : h.room ≡ g.room
    pub same_stream : h.streaming ≡ g.streaming

  on_bye-Stays :
      (m : Member) (g : Group)
      → HasActive my_hex g.members
      → m.id_hex ≢ my_hex
      → Stays g (on_bye my_id my_hex add_peer_from_qr m g)
  unfolding on_bye
  on_bye-Stays m g h d =
      let m' : Member = record m { pc = none; pending_ice = []; active = false } in
      ground (
        arith,
        set_member-HasActive my_hex m' g.members d h,
        count_active-HasActive my_hex (set_member m' g.members),
      )

  frame-Stays :
      (from room : Text) (g : Group)
      → HasActive my_hex g.members
      → from ≢ my_hex
      → Stays g (on_peer_message my_id my_hex add_peer_from_qr from (bye room) g)
  unfolding on_peer_message in_room on_room_message
  frame-Stays from room g h d = grind (arith, on_bye-Stays, find_member_key)

  -- The BYE frames of a room, by their senders.
  unfoldable pub on_byes : Text → List Text → Group → Group
  on_byes room [] g = g
  on_byes room (k ∷ ks) g =
      on_byes room ks (on_peer_message my_id my_hex add_peer_from_qr k (bye room) g)

  abbrev pub AreOthers : List Text → Type 0
  AreOthers [] = Unit {0}
  AreOthers (k ∷ ks) = (k ≢ my_hex) × AreOthers ks

  -- While the entry of this client in the member map is active, the BYE frames of others never end
  -- the call: whoever leaves, in any order, the room and the local stream stay.
  pub byes_never_end :
      (room : Text) (ks : List Text) (g : Group)
      → HasActive my_hex g.members
      → AreOthers ks
      → Stays g (on_byes room ks g)
  unfolding on_byes
  byes_never_end room [] g h o = ground arith
  byes_never_end room (k ∷ ks) g h o =
      let g' = on_peer_message my_id my_hex add_peer_from_qr k (bye room) g in
      grind (arith, frame-Stays k room g h o.0, byes_never_end room ks g')

  for_others-waiting :
      (f : Member → Effect) (ms : List Member) (g : Group)
      → (for_others my_id my_hex add_peer_from_qr f ms g).waiting ≡ g.waiting
  unfolding for_others
  for_others-waiting f [] g = refl
  for_others-waiting f (m ∷ ms) g = grind (arith, for_others-waiting f ms)

  leave_all-waiting :
      (ms : List Member) (g : Group)
      → (leave_all my_id my_hex add_peer_from_qr ms g).waiting ≡ g.waiting
  unfolding leave_all
  leave_all-waiting [] g = refl
  leave_all-waiting (m ∷ ms) g = grind (arith, leave_all-waiting ms)

  -- No call, no stream, and the waits that there were.
  pub record Ended (g h : Group) : Type 0 where
    pub no_room : h.room ≡ none
    pub no_members : h.members ≡ []
    pub no_stream : h.streaming ≡ false
    pub same_waits : h.waiting ≡ g.waiting

  leave-Ended : (g : Group) → is_in_call g ≡ true → Ended g (leave my_id my_hex add_peer_from_qr g)
  unfolding leave broadcast teardown
  leave-Ended g c = grind (arith, for_others-waiting, leave_all-waiting)

  after_media-idle :
      (w : Waiting) (g : Group)
      → g.members ≡ []
      → after_media my_id my_hex add_peer_from_qr w g ≡ emit state_active g
  unfolding after_media broadcast for_others
  after_media-idle (host_waits roster) g e = rw e refl
  after_media-idle guest_waits g e = rw e refl

  -- When the user leaves while one camera prompt is open and then grants it, the stream is opened
  -- with no call: there is no room and no member, and the last thing that the page is told is that a
  -- call is active.
  pub late_camera :
      (w : Waiting) (g : Group)
      → is_in_call g ≡ true
      → g.waiting ≡ w ∷ []
      → let h =
          media_result my_id my_hex add_peer_from_qr true (leave my_id my_hex add_peer_from_qr g) in
        (h.streaming ≡ true)
        × (h.room ≡ none)
        × (h.members ≡ [])
        × (h.out ≡ state_active ∷ local_stream true ∷ (leave my_id my_hex add_peer_from_qr g).out)
  unfolding media_result
  late_camera w g c e = grind (arith, leave-Ended g c, after_media-idle)
