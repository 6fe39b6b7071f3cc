-- ===== src/Chat/Tests.antt =====
-- A chat of two messages of one moment, and small runs of the counters.
use tele.Chat.Days.{Item, separator, line, lines_of, with_separators, refresh_day_separators}
use tele.Chat.Days.Rising.{AreUnder, AreRising, AreInOrder, days_rise}
use tele.Chat.Links.Hits.{Shows}
use tele.Chat.Links.{
  plain, anchor, marked, is_punct, trim_trailing_punct, part, links_from, linkify_into, find,
  highlight_from, append_highlighted, highlight_linkify_into,
}
use tele.Chat.Links.Whole.{shown_whole}
use tele.Prelude.{
  ℕ, ◌+◌, ◌/◌, ◌≤◌, ◌≡◌, refl, ◌&&◌, none, some, List, [], ◌∷◌, arith, leb, if◌then◌else◌, ◌===◌,
  codes,
}
use tele.Bytes.{Text, starts_with}

-- Lower case of the letters of ASCII.
abbrev lower_case : Text → Text
lower_case [] = []
lower_case (c ∷ s) = (if leb 65 c && leb c 90 then c + 32 else c) ∷ lower_case s

-- A message with an address and a full stop after it.
abbrev hello : Text
hello = codes "Hey http://a. hey"

abbrev address : List (ℕ × Text)
address = (4, codes "http://a.") ∷ []

-- Both hits are marked, and the full stop is not part of the address.
hello-nodes :
    highlight_linkify_into lower_case (codes "HEY") hello address
    ≡ some (
        marked (codes "Hey")
        ∷ plain (codes " ")
        ∷ anchor (codes "http://a")
        ∷ plain (codes ". ")
        ∷ marked (codes "hey")
        ∷ [])
unfolding highlight_linkify_into links_from part trim_trailing_punct is_punct append_highlighted
    highlight_from find starts_with ◌===◌
hello-nodes = refl

shown_whole_example :
    Shows hello (linkify_into hello address)
    × Shows hello (highlight_linkify_into lower_case (codes "HEY") hello address)
shown_whole_example =
    shown_whole lower_case (codes "HEY") hello address (omega arith, refl, omega arith)
      (omega arith)

-- Three messages of two days, with a separator that is out of place.
abbrev by_days : ℕ → ℕ
by_days ts = ts / 86400000

abbrev misplaced : List Item
misplaced =
    line (record { id = codes "a"; ts = 90000000 })
    ∷ line (record { id = codes "b"; ts = 90000001 })
    ∷ separator 90000001
    ∷ line (record { id = codes "c"; ts = 180000000 })
    ∷ []

two_separators :
    refresh_day_separators by_days misplaced
    ≡ separator 90000000
      ∷ line (record { id = codes "a"; ts = 90000000 })
      ∷ line (record { id = codes "b"; ts = 90000001 })
      ∷ separator 180000000
      ∷ line (record { id = codes "c"; ts = 180000000 })
      ∷ []
unfolding refresh_day_separators with_separators lines_of
two_separators = refl

by_days_mono : (a b : ℕ) → a ≤ b → by_days a ≤ by_days b
by_days_mono a b h = omega arith

misplaced-AreInOrder : AreInOrder 0 (lines_of misplaced)
unfolding lines_of
misplaced-AreInOrder = (omega arith, (omega arith, (omega arith, tt)))

days_rise_example :
    let shown = refresh_day_separators by_days misplaced in
    (lines_of shown ≡ lines_of misplaced)
    × AreUnder by_days none shown
    × (refresh_day_separators by_days shown ≡ shown)
    × AreRising by_days none shown
days_rise_example = days_rise by_days misplaced by_days_mono misplaced-AreInOrder
