-- ===== src/Chat/Days.antt =====
-- The separators between the days of a chat in `web/app.js`: refreshDaySeparators and dayLabel. The
-- local calendar day of a time, dayIndex, is an argument, since it reads the browser's time zone.
pub mod Rising
use tele.Prelude.{ℕ, ◌-◌, Bool, false, Option, none, some, List, [], ◌∷◌, ◌==◌, if◌then◌else◌}
use tele.Bytes.{Text}

-- A message on screen; `ts` is 0 for a row without a time.
pub record Line : Type 0 where
  pub id : Text
  pub ts : ℕ

-- What stands in the chat. A separator has the time of the message that it was made for.
pub data Item : Type 0 where
  separator : ℕ → Item
  line : Line → Item

-- `querySelectorAll('.msg')`, once the separators are removed
unfoldable pub lines_of : List Item → List Line
lines_of [] = []
lines_of (separator ts ∷ items) = lines_of items
lines_of (line l ∷ items) = l ∷ lines_of items

-- `k !== prevDay`
abbrev pub is_day : Option ℕ → ℕ → Bool
is_day none k = false
is_day (some j) k = j == k

-- The loop of refreshDaySeparators.
unfoldable pub with_separators : (ℕ → ℕ) → Option ℕ → List Line → List Item
with_separators day_index prev_day [] = []
with_separators day_index prev_day (l ∷ lines) =
    let k = day_index l.ts in
    let rest = with_separators day_index prev_day lines in
    let next = with_separators day_index (some k) lines in
    if l.ts == 0
    then line l ∷ rest
    else if is_day prev_day k
    then line l ∷ rest
    else separator l.ts ∷ line l ∷ next

-- refreshDaySeparators
unfoldable pub refresh_day_separators : (ℕ → ℕ) → List Item → List Item
unfolding with_separators lines_of
refresh_day_separators day_index items = with_separators day_index none (lines_of items)

-- The labels of dayLabel; `with_year` is a date of another year.
pub data Label : Type 0 where
  day_today day_yesterday date with_year : Label

-- dayLabel at time `now`; `year_of` is `getFullYear` of a time.
unfoldable pub day_label : (ℕ → ℕ) → (ℕ → ℕ) → ℕ → ℕ → Label
day_label day_index year_of now ts =
    let k = day_index ts in
    if k == day_index now
    then day_today
    else if k == day_index (now - 86400000)
    then day_yesterday
    else if year_of ts == year_of now
    then date
    else with_year
