-- ===== src/Group/Members.antt =====
-- The map of members in `web/group_call.js`, read and written by key.
use tele.Prelude.{◌≡◌, refl, some, List, [], ◌∷◌, arith, ===_refl, ===_iff}
use tele.Bytes.{Text}
use tele.Group.{Member, find_member, set_member}

pub find_member_key :
    (k : Text) (ms : List Member) (m : Member) → find_member k ms ≡ some m → m.id_hex ≡ k
unfolding find_member
find_member_key k [] m h = cc
find_member_key k (n ∷ ms) m h = ground (arith, ===_iff n.id_hex k, find_member_key k ms m)

pub find_member-set_member :
    (k : Text) (ms : List Member) (m n : Member)
    → find_member k ms ≡ some m
    → n.id_hex ≡ k
    → find_member k (set_member n ms) ≡ some n
unfolding find_member set_member
find_member-set_member k [] m n h e = cc
find_member-set_member k (x ∷ ms) m n h e =
    ground (arith, ===_refl k, find_member-set_member k ms m n)

pub set_member_same :
    (k : Text) (ms : List Member) (m : Member) → find_member k ms ≡ some m → set_member m ms ≡ ms
unfolding find_member set_member
set_member_same k [] m h = refl
set_member_same k (x ∷ ms) m h =
    ground (arith, ===_refl k, find_member_key k (x ∷ ms) m h, set_member_same k ms m)

pub set_member-set_member :
    (ms : List Member) (m n : Member)
    → m.id_hex ≡ n.id_hex
    → set_member n (set_member m ms) ≡ set_member n ms
unfolding set_member
set_member-set_member [] m n e = refl
set_member-set_member (x ∷ ms) m n e =
    ground (arith, ===_refl n.id_hex, set_member-set_member ms m n e)
