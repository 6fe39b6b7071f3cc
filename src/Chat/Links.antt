-- ===== src/Chat/Links.antt =====
-- How `web/app.js` shows the body of a message: linkifyInto, and highlightLinkifyInto with
-- appendHighlighted for a hit of the search. The matches of URL_RE and toLowerCase are the browser's
-- and arguments; a node of the page is its text and what kind it is.

pub mod Hits
pub mod Whole
use tele.Prelude.{
  ℕ, zero, suc, ◌+◌, Bool, ◌&&◌, ◌||◌, Option, none, some, List, [], ◌∷◌, ◌++◌, ltb, ◌==◌,
  if◌then◌else◌, ◌===◌, length, drop, slice,
}
use tele.Bytes.{Text, starts_with}

pub data Node : Type 0 where
  plain anchor marked : Text → Node

-- The class of trimTrailingPunct.
unfoldable pub is_punct : ℕ → Bool
is_punct c =
    c == 46 || c == 44 || c == 59 || c == 58 || c == 33 || c == 63 || c == 187 || c == 41 || c == 93

-- trimTrailingPunct
unfoldable pub trim_trailing_punct : Text → Text
unfolding is_punct
trim_trailing_punct [] = []
trim_trailing_punct (c ∷ s) =
    let rest = trim_trailing_punct s in if rest === [] && is_punct c then [] else c ∷ rest

-- A part of the body from a to b, if there is one.
unfoldable pub part : (Text → Option (List Node)) → ℕ → ℕ → Text → Option (List Node)
part put a b body = if ltb a b then put (slice a b body) else some []

abbrev pub join : Option (List Node) → Option (List Node) → Option (List Node)
join none ys = none
join (some xs) none = none
join (some xs) (some ys) = some (xs ++ ys)

-- The loop over the matches, each with its index; `put` shows the text between them.
unfoldable pub links_from :
    (Text → Option (List Node)) → Text → ℕ → List (ℕ × Text) → Option (List Node)
unfolding part trim_trailing_punct
links_from put body last [] = part put last (length body) body
links_from put body last ((start, raw) ∷ ms) =
    let url = trim_trailing_punct raw in
    join (part put last start body)
      (join (some (anchor url ∷ [])) (links_from put body (start + length url) ms))

-- linkifyInto
unfoldable pub linkify_into : Text → List (ℕ × Text) → Option (List Node)
unfolding links_from
linkify_into body ms = links_from (λ t. some (plain t ∷ [])) body 0 ms

abbrev pub one_on : Option ℕ → Option ℕ
one_on none = none
one_on (some i) = some (suc i)

-- `hay.indexOf(q)`, for a `q` that is not empty
unfoldable pub find : Text → Text → Option ℕ
unfolding starts_with
find q [] = none
find q (c ∷ hay) = let rest = find q hay in if starts_with q (c ∷ hay) then some 0 else one_on rest

-- The loop of appendHighlighted; none if the fuel does not last.
unfoldable pub highlight_from : ℕ → Text → Text → Text → ℕ → Option (List Node)
unfolding find
highlight_from zero q hay text from = none
highlight_from (suc n) q hay text from = elim (find q (drop from hay)) [
  | none ↦ some (if ltb from (length text) then plain (drop from text) ∷ [] else [])
  | some i ↦
      let idx = from + i in
      join (some (if ltb from idx then plain (slice from idx text) ∷ [] else [])) (
        join (some (marked (slice idx (idx + length q) text) ∷ []))
          (highlight_from n q hay text (idx + length q)))
]

-- appendHighlighted; every round moves on in `hay`.
unfoldable pub append_highlighted : (Text → Text) → Text → Text → Option (List Node)
unfolding highlight_from
append_highlighted lower query text =
    let hay = lower text in highlight_from (suc (length hay)) (lower query) hay text 0

-- highlightLinkifyInto
unfoldable pub highlight_linkify_into :
    (Text → Text) → Text → Text → List (ℕ × Text) → Option (List Node)
unfolding links_from append_highlighted
highlight_linkify_into lower query body ms = links_from (append_highlighted lower query) body 0 ms
