-- ===== src/Group/Tests.antt =====
-- Small group calls.
use tele.Prelude.{
  ◌≡◌, refl, ◌⊎◌, inl, true, false, Option, none, some, List, [], ◌∷◌, arith, ◌===◌, codes,
}
use tele.Bytes.{Text, Bytes, hex_digit, hex_of}
use tele.Table.{text_lt}
use tele.Group.Media.{
  Media, make_peer, turn_on, turn_off, toggle_video, stop_screen_share, toggle_screen_share,
}
use tele.Call.Media.{has}
use tele.Group.Media.Shared.{
  joins, toggles, shares, share_ends, Steps, done, more, IsShared, IsCommon, same_for_all,
}
use tele.Group.Calls.{
  ingest_entry, ingest_roster, for_others, after_media, open_media, media_result, start,
}
use tele.Group.Peers.{connect_to, on_join, add_all, on_room_message, in_room, on_peer_message}
use tele.Group.{
  have_local_offer, Member, Entry, Group, new_group, has_member, find_member, set_member,
  fresh_member, join, answer,
}
use tele.Group.Step.{Op, started, camera, peer_sent, apply, apply_all}
use tele.Group.Size.{Inv, members_bounded}
use tele.Group.Mesh.{echoed, offered, no_glare, on_candidates, candidates_wait}

abbrev ann_id : Bytes
ann_id = 10 ∷ []

abbrev ann : Text
ann = codes "0a"

abbrev bo_id : Bytes
bo_id = 11 ∷ []

abbrev bo : Text
bo = codes "0b"

-- Every key is accepted, and the id is the first byte of the code.
abbrev keys : Text → Option Bytes
keys qr = elim qr [ [] ↦ none | c ∷ qr' ↦ some (c ∷ []) ]

abbrev two : List Entry
two =
    record { id = ann; qr = 10 ∷ []; label = codes "Ann" }
    ∷ record { id = bo; qr = 11 ∷ []; label = codes "Bo" }
    ∷ []

abbrev room : Text
room = codes "r"

-- Ann starts a call with Bo, and Bo joins it.
abbrev joined_ops : List Op
joined_ops = started room two ∷ camera true ∷ peer_sent bo (join room) ∷ []

abbrev joined_call : Group
joined_call = apply_all ann_id ann keys joined_ops new_group

members_bounded_example : Inv joined_call
members_bounded_example = members_bounded ann_id ann keys joined_ops

abbrev member_of : Bytes → Text → Member
member_of id k = fresh_member id k (record { id = k; qr = []; label = [] }) false

abbrev in_a_room : Group
in_a_room = record new_group { room = some room }

no_glare_example :
    (((on_join ann_id ann keys (member_of bo_id bo) in_a_room).out
        ≡ offered (member_of bo_id bo) in_a_room)
      × ((on_join bo_id bo keys (member_of ann_id ann) in_a_room).out
          ≡ echoed (member_of ann_id ann) in_a_room))
    ⊎ (((on_join ann_id ann keys (member_of bo_id bo) in_a_room).out
          ≡ echoed (member_of bo_id bo) in_a_room)
        × ((on_join bo_id bo keys (member_of ann_id ann) in_a_room).out
            ≡ offered (member_of ann_id ann) in_a_room))
no_glare_example =
    no_glare ann_id ann keys bo_id bo keys (member_of ann_id ann) (member_of bo_id bo) in_a_room
      in_a_room refl refl (ground arith) refl refl refl refl

-- The member for Bo after the offer to him.
abbrev offered_bo : Member
offered_bo = record {
  id = bo_id;
  id_hex = bo;
  qr = 11 ∷ [];
  label = codes "Bo";
  active = true;
  pc = some (record { signaling = have_local_offer; has_remote = false });
  pending_ice = [];
}

abbrev calls : List Text
calls = codes "c1" ∷ codes "c2" ∷ []

joined_call-room : joined_call.room ≡ some room
unfolding apply_all apply start ingest_roster ingest_entry open_media media_result after_media
    for_others on_peer_message in_room on_room_message on_join connect_to set_member has_member
    find_member text_lt ◌===◌ hex_of hex_digit
joined_call-room = refl

joined_call-bo : find_member bo joined_call.members ≡ some offered_bo
unfolding apply_all apply start ingest_roster ingest_entry open_media media_result after_media
    for_others on_peer_message in_room on_room_message on_join connect_to set_member has_member
    find_member text_lt ◌===◌ hex_of hex_digit
joined_call-bo = refl

candidates_wait_example :
    (on_candidates ann_id ann keys room bo calls
        (on_peer_message ann_id ann keys bo (answer room true) joined_call)
      ≡ on_peer_message ann_id ann keys bo
          (answer room true)
          (on_candidates ann_id ann keys room bo calls joined_call))
    × ((on_candidates ann_id ann keys room bo calls
          (on_peer_message ann_id ann keys bo (answer room true) joined_call)).out
        ≡ (add_all ann_id ann keys bo calls joined_call).out)
candidates_wait_example =
    candidates_wait ann_id ann keys room bo offered_bo calls joined_call joined_call-room
      joined_call-bo refl refl

-- A camera and a microphone are open, and nobody has joined.
abbrev alone : Media
alone = record {
  streaming = true;
  video = some 1;
  audio = some 2;
  stopped = [];
  disabled = [];
  legs = [];
  video_off = false;
  last_video = none;
  screen = none;
}

alone-IsShared : IsShared alone
unfolding has
alone-IsShared = record {
  track = 1;
  streams = refl;
  seen = refl;
  runs = refl;
  given = tt;
  kept = λ q. absurd (cc q);
}

-- One member joins; the video is off while another does; then the screen is shared, the
-- camera is refused at the end, and the screen is shared again.
abbrev seen_off : Media
seen_off = (toggle_video (make_peer (codes "a1") alone)).1

abbrev seen_on : Media
seen_on = (toggle_video (make_peer (codes "b0") seen_off)).1

abbrev sharing : Media
sharing = (toggle_screen_share (some 3) none seen_on).1

abbrev all_dark : Media
all_dark = stop_screen_share none sharing

abbrev sharing_again : Media
sharing_again = (toggle_screen_share (some 4) none all_dark).1

to_sharing : Steps alone sharing_again
to_sharing =
    more alone (make_peer (codes "a1") alone) sharing_again (joins (codes "a1") 1 alone refl) (
      more (make_peer (codes "a1") alone) seen_off sharing_again
        (toggles (make_peer (codes "a1") alone))
        (more seen_off (make_peer (codes "b0") seen_off) sharing_again
          (joins (codes "b0") 1 seen_off (unfold toggle_video turn_off make_peer in refl))
          (more (make_peer (codes "b0") seen_off) seen_on sharing_again
            (toggles (make_peer (codes "b0") seen_off))
            (more seen_on sharing sharing_again
              (shares 3 seen_on (unfold toggle_video turn_on turn_off make_peer in refl)
                (unfold toggle_video turn_on turn_off make_peer has in refl))
              (more sharing all_dark sharing_again
                (share_ends none sharing
                  (unfold toggle_screen_share toggle_video turn_on turn_off make_peer in refl) tt)
                (more all_dark sharing_again sharing_again
                  (shares 4 all_dark
                    (unfold stop_screen_share toggle_screen_share toggle_video turn_on turn_off
                        make_peer in
                      refl)
                    (unfold stop_screen_share toggle_screen_share toggle_video turn_on turn_off
                        make_peer has in
                      refl))
                  (done sharing_again)))))))

same_for_all_example : IsCommon sharing_again
same_for_all_example = same_for_all alone sharing_again to_sharing (inl alone-IsShared)
