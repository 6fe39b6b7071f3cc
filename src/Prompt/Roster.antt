-- ===== src/Prompt/Roster.antt =====
-- The roster that the `add-participants-confirm` button of `web/app.js` hands to the group call.
use mathlib.Core.Option.{some-injective}
use tele.Prelude.{
  ℕ, zero, suc, ◌≤◌, ◌≡◌, refl, sym, ◌∙◌, inl, inr, Bool, false, ◌||◌, Option, none, some, List, [],
  ◌∷◌, ◌++◌, arith, ltb, if◌then◌else◌, Bool-cases, Option-cases, ◌===◌, ===_iff, length, take,
  length-take,
}
use tele.Bytes.{Text}
use tele.Table.{Table, lookup}
use tele.Book.{Peer}
use tele.Group.{max_members, Entry}

-- `seen.has(idHex)`: `seen` holds the ids of the roster.
unfoldable pub is_seen : Text → List Entry → Bool
is_seen id [] = false
is_seen id (e ∷ roster) = e.id === id || is_seen id roster

-- `p.label || idHex.slice(0, 8)`
abbrev pub label_of : Text → Option Text → Text
label_of id none = take 8 id
label_of id (some []) = take 8 id
label_of id (some (c ∷ s)) = c ∷ s

-- addPeer
unfoldable pub add_entry : Table Peer → Text → List Entry → List Entry
unfolding is_seen
add_entry peers id roster = if is_seen id roster then roster else elim (lookup id peers) [
  | none ↦ roster
  | some p ↦
      if p.qr === []
      then roster
      else roster ++ (record { id = id; qr = p.qr; label = label_of id p.label } ∷ [])
]

unfoldable pub add_entries : Table Peer → List Text → List Entry → List Entry
unfolding add_entry
add_entries peers [] roster = roster
add_entries peers (id ∷ ids) roster = add_entries peers ids (add_entry peers id roster)

-- Nobody to call, or as many as a group takes.
unfoldable pub capped : List Entry → Option (List Entry)
capped roster =
    if ltb (length roster) 2
    then none
    else some (if ltb max_members (length roster) then take max_members roster else roster)

abbrev pub ids_of : Option Text → List Text → List Text
ids_of none checked = checked
ids_of (some id) checked = id ∷ checked

-- The roster that is handed on, if anybody can be called: the caller, the peer of the call of two if
-- there is one, and those who are checked.
unfoldable pub roster_of : Table Peer → Entry → Option Text → List Text → Option (List Entry)
unfolding add_entries capped
roster_of peers me one_peer checked = capped (add_entries peers (ids_of one_peer checked) (me ∷ []))

-- No id stands twice.
abbrev pub IsDistinct : List Entry → Type 0
IsDistinct [] = Unit {0}
IsDistinct (e ∷ roster) = (is_seen e.id roster ≡ false) × IsDistinct roster

is_seen-append :
    (id : Text) (xs ys : List Entry) → is_seen id (xs ++ ys) ≡ (is_seen id xs || is_seen id ys)
unfolding is_seen
is_seen-append id [] ys = refl
is_seen-append id (e ∷ xs) ys = ground (arith, is_seen-append id xs ys)

IsDistinct-append :
    (roster : List Entry) (e : Entry)
    → IsDistinct roster
    → is_seen e.id roster ≡ false
    → IsDistinct (roster ++ (e ∷ []))
unfolding is_seen
IsDistinct-append [] e h n = (refl, tt)
IsDistinct-append (x ∷ roster) e h n = (
  rw (is_seen-append x.id roster (e ∷ []))
      (ground (arith, h.0, n, ===_iff e.id x.id, ===_iff x.id e.id)),
  IsDistinct-append roster e h.1 (ground (arith, n)),
)

is_seen-take :
    (id : Text) (n : ℕ) (roster : List Entry)
    → is_seen id roster ≡ false
    → is_seen id (take n roster) ≡ false
unfolding is_seen
is_seen-take id zero roster h = refl
is_seen-take id (suc n) [] h = refl
is_seen-take id (suc n) (e ∷ roster) h = ground (arith, h, is_seen-take id n roster)

IsDistinct-take : (n : ℕ) (roster : List Entry) → IsDistinct roster → IsDistinct (take n roster)
unfolding is_seen
IsDistinct-take zero roster h = tt
IsDistinct-take (suc n) [] h = tt
IsDistinct-take (suc n) (e ∷ roster) h =
    (is_seen-take e.id n roster h.0, IsDistinct-take n roster h.1)

-- The caller stands first.
abbrev pub StartsWith : Entry → List Entry → Type 0
StartsWith e [] = ⊥
StartsWith e (x ∷ roster) = x ≡ e

StartsWith-append : (e : Entry) (xs ys : List Entry) → StartsWith e xs → StartsWith e (xs ++ ys)
StartsWith-append e [] ys h = absurd h
StartsWith-append e (x ∷ xs) ys h = h

add_entry-keeps :
    (peers : Table Peer) (me : Entry) (id : Text) (roster : List Entry)
    → IsDistinct roster × StartsWith me roster
    → IsDistinct (add_entry peers id roster) × StartsWith me (add_entry peers id roster)
unfolding add_entry
add_entry-keeps peers me id roster h = elim (Bool-cases (is_seen id roster)) [
  | inl e ↦ rw (e, add_entry) h
  | inr n ↦ elim (Option-cases (lookup id peers)) [
    | inl e ↦ rw (n, add_entry, e) h
    | inr (p, e) ↦ elim (Bool-cases (p.qr === [])) [
      | inl q ↦ rw (n, add_entry, e, q) h
      | inr q ↦
          rw (n, add_entry, e, q)
            (IsDistinct-append roster _ h.0 n, StartsWith-append me roster _ h.1)
    ]
  ]
]

add_entries-keeps :
    (peers : Table Peer) (me : Entry) (ids : List Text) (roster : List Entry)
    → IsDistinct roster × StartsWith me roster
    → IsDistinct (add_entries peers ids roster) × StartsWith me (add_entries peers ids roster)
unfolding add_entries
add_entries-keeps peers me [] roster h = h
add_entries-keeps peers me (id ∷ ids) roster h =
    add_entries-keeps peers me ids (add_entry peers id roster)
      (add_entry-keeps peers me id roster h)

StartsWith-take :
    (e : Entry) (n : ℕ) (roster : List Entry)
    → StartsWith e roster
    → StartsWith e (take (suc n) roster)
StartsWith-take e n [] h = h
StartsWith-take e n (x ∷ roster) h = h

capped-some :
    (me : Entry) (r roster : List Entry)
    → capped r ≡ some roster
    → IsDistinct r × StartsWith me r
    → (2 ≤ length roster) × (length roster ≤ max_members) × StartsWith me roster × IsDistinct roster
unfolding capped
capped-some me r roster e h = elim (Bool-cases (ltb (length r) 2)) [
  | inl s ↦ absurd (ground (arith, e, s))
  | inr s ↦ elim (Bool-cases (ltb 5 (length r))) [
    | inl l ↦
        let q : take 5 r ≡ roster = some-injective _ _ (sym (rw (s, capped, l) refl) ∙ e) in
        let n = length-take 5 r in
        rw (← q) (
          rw n (ground arith),
          rw n (omega arith),
          StartsWith-take me 4 r h.1,
          IsDistinct-take 5 r h.0,
        )
    | inr l ↦
        let q : r ≡ roster = some-injective _ _ (sym (rw (s, capped, l) refl) ∙ e) in
        rw (← q) (ground arith, ground arith, h.1, h.0)
  ]
]

-- A roster that the dialog hands to the group call has two to MAX_MEMBERS entries, the caller first and
-- no id twice.
pub roster_lem :
    (peers : Table Peer) (me : Entry) (one_peer : Option Text) (checked : List Text)
    (roster : List Entry)
    → roster_of peers me one_peer checked ≡ some roster
    → (2 ≤ length roster) × (length roster ≤ max_members) × StartsWith me roster × IsDistinct roster
unfolding roster_of is_seen
roster_lem peers me one_peer checked roster h =
    let ids = ids_of one_peer checked in
    capped-some me (add_entries peers ids (me ∷ [])) roster h
      (add_entries-keeps peers me ids (me ∷ []) ((refl, tt), refl))
