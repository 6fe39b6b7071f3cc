-- ===== src/Chat/Days/Rising.antt =====
-- Every message stands under its own day, and every day has one separator.
use tele.Prelude.{
  ℕ, ◌≤◌, ◌<◌, ◌≡◌, refl, ap, ◌⊎◌, true, Option, none, some, List, [], ◌∷◌, arith, ◌==◌,
}
use tele.Chat.Days.{Line, Item, separator, line, lines_of, with_separators, refresh_day_separators}

-- Each line with a time stands below a separator of its day, the last one above it; `day` is the day
-- of the separator above the list.
abbrev pub AreUnder : (ℕ → ℕ) → Option ℕ → List Item → Type 0
AreUnder day_index day [] = Unit
AreUnder day_index day (separator ts ∷ items) = AreUnder day_index (some (day_index ts)) items
AreUnder day_index day (line l ∷ items) =
    ((l.ts == 0) ≡ true ⊎ day ≡ some (day_index l.ts)) × AreUnder day_index day items

abbrev pub IsAfter : Option ℕ → ℕ → Type 0
IsAfter none k = Unit
IsAfter (some j) k = j < k

-- The days of the separators rise, from `day` on.
abbrev pub AreRising : (ℕ → ℕ) → Option ℕ → List Item → Type 0
AreRising day_index day [] = Unit
AreRising day_index day (separator ts ∷ items) =
    IsAfter day (day_index ts) × AreRising day_index (some (day_index ts)) items
AreRising day_index day (line l ∷ items) = AreRising day_index day items

-- The times do not fall, from `ts` on.
abbrev pub AreInOrder : ℕ → List Line → Type 0
AreInOrder ts [] = Unit
AreInOrder ts (l ∷ lines) = (ts ≤ l.ts) × AreInOrder l.ts lines

lines_of-with_separators :
    (day_index : ℕ → ℕ) (day : Option ℕ) (lines : List Line)
    → lines_of (with_separators day_index day lines) ≡ lines
unfolding lines_of with_separators
lines_of-with_separators day_index day [] = refl
lines_of-with_separators day_index day (l ∷ lines) =
    let same = lines_of-with_separators day_index day lines in
    let next = lines_of-with_separators day_index (some (day_index l.ts)) lines in ground arith

with_separators-AreUnder :
    (day_index : ℕ → ℕ) (day : Option ℕ) (lines : List Line)
    → AreUnder day_index day (with_separators day_index day lines)
unfolding with_separators
with_separators-AreUnder day_index day [] = tt
with_separators-AreUnder day_index day (l ∷ lines) =
    let same = with_separators-AreUnder day_index day lines in
    let next = with_separators-AreUnder day_index (some (day_index l.ts)) lines in ground arith

-- The day of a separator is at most that of a time.
abbrev IsUpTo : (ℕ → ℕ) → Option ℕ → ℕ → Type 0
IsUpTo day_index none ts = Unit
IsUpTo day_index (some j) ts = j ≤ day_index ts

with_separators-AreRising :
    (day_index : ℕ → ℕ) (day : Option ℕ) (ts : ℕ) (lines : List Line)
    → ((a b : ℕ) → a ≤ b → day_index a ≤ day_index b)
    → IsUpTo day_index day ts
    → AreInOrder ts lines
    → AreRising day_index day (with_separators day_index day lines)
unfolding with_separators
with_separators-AreRising day_index day ts [] mono up order = tt
with_separators-AreRising day_index none ts (l ∷ lines) mono up (here, order) =
    let same = with_separators-AreRising day_index none l.ts lines mono tt order in
    let next =
      with_separators-AreRising day_index (some (day_index l.ts)) l.ts lines mono (omega arith)
        order in
    ground arith
with_separators-AreRising day_index (some j) ts (l ∷ lines) mono up (here, order) =
    let later = mono ts l.ts here in
    let same = with_separators-AreRising day_index (some j) l.ts lines mono (omega arith) order in
    let next =
      with_separators-AreRising day_index (some (day_index l.ts)) l.ts lines mono (omega arith)
        order in
    ground arith

refresh-lines :
    (day_index : ℕ → ℕ) (items : List Item)
    → lines_of (refresh_day_separators day_index items) ≡ lines_of items
unfolding refresh_day_separators
refresh-lines day_index items = lines_of-with_separators day_index none (lines_of items)

-- If the times of the messages do not fall and the calendar does not go back, then whatever
-- separators a chat has before a refresh, afterwards it has the same messages in the same order, each
-- with a time below a separator of its own day; another refresh changes nothing; and the days of the
-- separators rise, so no day has two.
pub days_rise :
    (day_index : ℕ → ℕ) (items : List Item)
    → ((a b : ℕ) → a ≤ b → day_index a ≤ day_index b)
    → AreInOrder 0 (lines_of items)
    → let shown = refresh_day_separators day_index items in
      (lines_of shown ≡ lines_of items)
      × AreUnder day_index none shown
      × (refresh_day_separators day_index shown ≡ shown)
      × AreRising day_index none shown
unfolding refresh_day_separators
days_rise day_index items mono order =
    let lines = lines_of items in
    let same = refresh-lines day_index items in
    (
      same,
      with_separators-AreUnder day_index none lines,
      ap (λ ls. with_separators day_index none ls) same,
      with_separators-AreRising day_index none 0 lines mono tt order,
    )
