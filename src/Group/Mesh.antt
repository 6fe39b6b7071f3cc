-- ===== src/Group/Mesh.antt =====
-- How the mesh of `web/group_call.js` forms: _onJoin, _connectTo, _onIce and _drainIce.
use tele.Prelude.{
  ◌≡◌, refl, sym, ap, ◌∙◌, ◌≢◌, ◌⊎◌, true, false, Option, none, some, List, [], ◌∷◌, ◌++◌,
  append-nil, append_assoc, arith, ===_refl,
}
use tele.Bytes.{Text, Bytes}
use tele.Wire.Codes.{group_join, group_offer}
use tele.Table.{text_lt}
use tele.Table.Order.{text_lt_one}
use tele.Group.Members.{
  find_member_key, find_member-set_member, set_member_same, set_member-set_member,
}
use tele.Group.Peers.{
  connect_to, on_join, add_all, on_answer, on_ice, on_room_message, in_room, on_peer_message,
}
use tele.Group.{
  stable, have_local_offer, Member, Effect, send_room, send_sdp, participant_join, add_candidate,
  Group, emit, find_member, with_member, is_expecting, is_ready, answer, ice,
}

-- What _onJoin of a new member sends and shows before any offer.
abbrev pub echoed : Member → Group → List Effect
echoed m g = send_room m.id group_join g.room ∷ participant_join m.id_hex ∷ g.out

abbrev pub offered : Member → Group → List Effect
offered m g = send_sdp m.id group_offer g.room ∷ echoed m g

module _ (my_id : Bytes) (my_hex : Text) (add_peer_from_qr : Text → Option Bytes) where
  on_join_lower :
      (m : Member) (g : Group)
      → m.active ≡ false
      → m.pc ≡ none
      → text_lt my_hex m.id_hex ≡ true
      → (on_join my_id my_hex add_peer_from_qr m g).out ≡ offered m g
  unfolding on_join connect_to
  on_join_lower m g na np l = ground arith

  on_join_higher :
      (m : Member) (g : Group)
      → m.active ≡ false
      → text_lt my_hex m.id_hex ≡ false
      → (on_join my_id my_hex add_peer_from_qr m g).out ≡ echoed m g
  unfolding on_join
  on_join_higher m g na l = ground arith

-- Two clients that hear of each other.
module _ (a_id : Bytes) (a_hex : Text) (a_keys : Text → Option Bytes) (b_id : Bytes) (b_hex : Text)
    (b_keys : Text → Option Bytes) where
  -- Client a has call g with the member b, and client b has call h with the member a. Where
  -- their ids differ and neither has a connection to the other or knows it as active, the two
  -- `_onJoin` handlers both echo the join and exactly one of them makes an offer.
  pub no_glare :
      (a b : Member) (g h : Group)
      → a.id_hex ≡ a_hex
      → b.id_hex ≡ b_hex
      → a_hex ≢ b_hex
      → a.active ≡ false
      → b.active ≡ false
      → a.pc ≡ none
      → b.pc ≡ none
      → (((on_join a_id a_hex a_keys b g).out ≡ offered b g)
          × ((on_join b_id b_hex b_keys a h).out ≡ echoed a h))
        ⊎ (((on_join a_id a_hex a_keys b g).out ≡ echoed b g)
            × ((on_join b_id b_hex b_keys a h).out ≡ offered a h))
  no_glare a b g h ea eb ne na nb pa pb = grind (
    arith,
    text_lt_one a_hex b_hex ne,
    on_join_lower a_id a_hex a_keys b g,
    on_join_higher a_id a_hex a_keys b g,
    on_join_lower b_id b_hex b_keys a h,
    on_join_higher b_id b_hex b_keys a h,
  )

module _ (my_id : Bytes) (my_hex : Text) (add_peer_from_qr : Text → Option Bytes) where
  -- Candidates of one member that arrive one after the other.
  unfoldable pub on_candidates : Text → Text → List Text → Group → Group
  on_candidates room k [] g = g
  on_candidates room k (c ∷ cs) g =
      on_candidates room k cs
        (on_peer_message my_id my_hex add_peer_from_qr k (ice room (some c)) g)

  ready_again :
      (room k : Text) (m : Member) (cs : List Text) (g : Group)
      → g.room ≡ some room
      → find_member k g.members ≡ some m
      → is_ready m.pc ≡ true
      → on_candidates room k cs g ≡ add_all my_id my_hex add_peer_from_qr k cs g
  unfolding on_candidates on_peer_message in_room on_room_message on_ice add_all
  ready_again room k m [] g er em d = refl
  ready_again room k m (c ∷ cs) g er em d = ground (
    arith,
    ===_refl room,
    find_member_key k g.members m em,
    ready_again room k m cs (emit (add_candidate k c) g) er em d,
  )

  queued_one :
      (room k : Text) (m : Member) (c : Text) (g : Group)
      → g.room ≡ some room
      → find_member k g.members ≡ some m
      → is_ready m.pc ≡ false
      → on_peer_message my_id my_hex add_peer_from_qr k (ice room (some c)) g
        ≡ with_member (record m { pending_ice = m.pending_ice ++ (c ∷ []) }) g
  unfolding on_peer_message in_room on_room_message on_ice
  queued_one room k m c g er em d = ground (arith, ===_refl room)

  queued_up :
      (room k : Text) (m : Member) (cs : List Text) (g : Group)
      → g.room ≡ some room
      → find_member k g.members ≡ some m
      → is_ready m.pc ≡ false
      → on_candidates room k cs g ≡ with_member (record m { pending_ice = m.pending_ice ++ cs }) g
  unfolding on_candidates
  queued_up room k m [] g er em d =
      grind (arith, append-nil m.pending_ice, set_member_same k g.members m em)
  queued_up room k m (c ∷ cs) g er em d =
      let m' = record m { pending_ice = m.pending_ice ++ (c ∷ []) } in
      grind (
        arith,
        queued_one room k m c g er em d,
        find_member_key k g.members m em,
        find_member-set_member k g.members m m' em,
        queued_up room k m' cs (with_member m' g) er,
        append_assoc m.pending_ice (c ∷ []) cs,
        set_member-set_member g.members m',
      )

  add_all-with_member :
      (k : Text) (cs : List Text) (m : Member) (g : Group)
      → add_all my_id my_hex add_peer_from_qr k cs (with_member m g)
        ≡ with_member m (add_all my_id my_hex add_peer_from_qr k cs g)
  unfolding add_all
  add_all-with_member k [] m g = refl
  add_all-with_member k (c ∷ cs) m g = add_all-with_member k cs m (emit (add_candidate k c) g)

  abbrev answered : Member → Member
  answered m = record m {
    pc = some (record { signaling = stable; has_remote = true });
    pending_ice = [];
  }

  answer_lem :
      (room k : Text) (m : Member) (g : Group)
      → g.room ≡ some room
      → find_member k g.members ≡ some m
      → is_expecting m.pc ≡ true
      → on_peer_message my_id my_hex add_peer_from_qr k (answer room true) g
        ≡ with_member (answered m) (add_all my_id my_hex add_peer_from_qr m.id_hex m.pending_ice g)
  unfolding on_peer_message in_room on_room_message on_answer
  answer_lem room k m g er em d = ground (arith, ===_refl room)

  answer_first :
      (room k : Text) (m : Member) (cs : List Text) (g : Group)
      → g.room ≡ some room
      → find_member k g.members ≡ some m
      → is_expecting m.pc ≡ true
      → m.pending_ice ≡ []
      → on_candidates room k cs
          (on_peer_message my_id my_hex add_peer_from_qr k (answer room true) g)
        ≡ with_member (answered m) (add_all my_id my_hex add_peer_from_qr k cs g)
  unfolding add_all
  answer_first room k m cs g er em d ei =
      let g' = with_member (answered m) g in
      grind (
        arith,
        answer_lem room k m g er em d,
        find_member_key k g.members m em,
        find_member-set_member k g.members m (answered m) em,
        ready_again room k (answered m) cs g',
        add_all-with_member k cs (answered m) g,
      )

  answer_last :
      (room k : Text) (m : Member) (cs : List Text) (g : Group)
      → g.room ≡ some room
      → find_member k g.members ≡ some m
      → is_expecting m.pc ≡ true
      → is_ready m.pc ≡ false
      → m.pending_ice ≡ []
      → on_peer_message my_id my_hex add_peer_from_qr k
          (answer room true)
          (on_candidates room k cs g)
        ≡ with_member (answered m) (add_all my_id my_hex add_peer_from_qr k cs g)
  answer_last room k m cs g er em d r ei =
      let m' = record m { pending_ice = cs } in
      grind (
        arith,
        queued_up room k m cs g er em r,
        find_member_key k g.members m em,
        find_member-set_member k g.members m m' em,
        answer_lem room k m' (with_member m' g),
        add_all-with_member k cs m' g,
        set_member-set_member (add_all my_id my_hex add_peer_from_qr k cs g).members m'
            (answered m),
      )

  -- In a call, with a member that an offer was made to and that has no candidates queued: the call
  -- ends in the same state whether the member's answer comes before its candidates or after them,
  -- and either way the connection is given every candidate, in the order of arrival.
  pub candidates_wait :
      (room k : Text) (m : Member) (cs : List Text) (g : Group)
      → g.room ≡ some room
      → find_member k g.members ≡ some m
      → m.pc ≡ some (record { signaling = have_local_offer; has_remote = false })
      → m.pending_ice ≡ []
      → (on_candidates room k cs
            (on_peer_message my_id my_hex add_peer_from_qr k (answer room true) g)
          ≡ on_peer_message my_id my_hex add_peer_from_qr k
              (answer room true)
              (on_candidates room k cs g))
        × ((on_candidates room k cs
              (on_peer_message my_id my_hex add_peer_from_qr k (answer room true) g)).out
            ≡ (add_all my_id my_hex add_peer_from_qr k cs g).out)
  candidates_wait room k m cs g er em ep ei = (
    answer_first room k m cs g er em (rw ep refl) ei
        ∙ sym (answer_last room k m cs g er em (rw ep refl) (rw ep refl) ei),
    ap (λ (x : Group). x.out) (answer_first room k m cs g er em (rw ep refl) ei),
  )
