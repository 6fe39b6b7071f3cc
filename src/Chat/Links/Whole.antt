-- ===== src/Chat/Links/Whole.antt =====
-- What `web/app.js` shows of a message is its body, whole and in order.
use tele.Prelude.{
  ℕ, ◌+◌, ◌≤◌, ◌≡◌, refl, sym, ap, ◌∙◌, inl, inr, ◌&&◌, Option, some, List, [], ◌∷◌, ◌++◌,
  append-nil, append_assoc, arith, ltb, Bool-cases, ◌===◌, length, drop, drop-append, slice,
}
use tele.Bytes.{Text}
use tele.Chat.Links.{
  Node, plain, anchor, is_punct, trim_trailing_punct, part, join, links_from, linkify_into,
  append_highlighted, highlight_linkify_into,
}
use tele.Chat.Links.Hits.{
  text_of, Shows, join-Shows, Shows-same, drop-drop, slice-append-drop, slice_empty, drop_all,
  anchor-Shows, append_highlighted-Shows,
}

-- Matches of a body: each stands at its index, after the one before.
abbrev pub Matches : Text → ℕ → List (ℕ × Text) → Type 0
Matches body last [] = last ≤ length body
Matches body last ((start, raw) ∷ ms) =
    (last ≤ start)
    × (drop start body ≡ raw ++ drop (start + length raw) body)
    × Matches body (start + length raw) ms

trim_keeps : (s : Text) → s ≡ trim_trailing_punct s ++ drop (length (trim_trailing_punct s)) s
unfolding trim_trailing_punct
trim_keeps [] = refl
trim_keeps (c ∷ s) = elim (Bool-cases (trim_trailing_punct s === [] && is_punct c)) [
  | inl e ↦ rw e refl
  | inr e ↦ rw e (ap (λ l. c ∷ l) (trim_keeps s))
]

part-Shows :
    (put : Text → Option (List Node))
    → ((t : Text) → Shows t (put t))
    → (a b : ℕ) (s : Text) → Shows (slice a b s) (part put a b s)
unfolding part text_of
part-Shows put h a b s = elim (Bool-cases (ltb a b)) [
  | inl e ↦ rw (e, part) (h (slice a b s))
  | inr e ↦ rw (e, part, slice_empty a b s (ground (arith, e))) refl
]

-- A match that begins later than needed is a match.
Matches-earlier :
    (body : Text) (a b : ℕ) (ms : List (ℕ × Text)) → a ≤ b → Matches body b ms → Matches body a ms
Matches-earlier body a b [] h m = omega (arith, m)
Matches-earlier body a b ((start, raw) ∷ ms) h m = (omega (arith, m.0), m.1, m.2)

-- The address of a match is what stands there in the body.
url_lem :
    (start : ℕ) (raw body : Text)
    → drop start body ≡ raw ++ drop (start + length raw) body
    → trim_trailing_punct raw ++ drop (start + length (trim_trailing_punct raw)) body
      ≡ drop start body
url_lem start raw body h =
    let url = trim_trailing_punct raw in
    let after = drop (length url) raw ++ drop (start + length raw) body in
    let e : drop start body ≡ url ++ after =
      h
      ∙ ap (λ t. t ++ drop (start + length raw) body) (trim_keeps raw)
      ∙ append_assoc url (drop (length url) raw) (drop (start + length raw) body) in
    let f : drop (start + length url) body ≡ after =
      sym (drop-drop start (length url) body)
      ∙ ap (λ t. drop (length url) t) e
      ∙ drop-append (length url) url after refl in
    ap (λ t. url ++ t) f ∙ sym e

trim_shorter : (s : Text) → length (trim_trailing_punct s) ≤ length s
unfolding trim_trailing_punct
trim_shorter [] = omega arith
trim_shorter (c ∷ s) = elim (Bool-cases (trim_trailing_punct s === [] && is_punct c)) [
  | inl e ↦ rw e (omega arith)
  | inr e ↦ rw e (omega (arith, trim_shorter s))
]

links_from-Shows :
    (put : Text → Option (List Node))
    → ((t : Text) → Shows t (put t))
    → (body : Text) (last : ℕ) (ms : List (ℕ × Text)) → Matches body last ms
    → Shows (drop last body) (links_from put body last ms)
unfolding links_from
links_from-Shows put h body last [] m =
    Shows-same (slice last (length body) body) (drop last body) (part put last (length body) body)
      ((sym (append-nil (slice last (length body) body))
        ∙ ap (λ t. slice last (length body) body ++ t)
            (sym (drop_all (length body) body (omega arith)))
        ∙ slice-append-drop last (length body) body m))
      (part-Shows put h last (length body) body)
links_from-Shows put h body last ((start, raw) ∷ ms) m =
    let url = trim_trailing_punct raw in
    let next = start + length url in
    let links = links_from put body next ms in
    let here = some (anchor url ∷ []) in
    let cut =
      ap (λ t. slice last start body ++ t) (url_lem start raw body m.1)
      ∙ slice-append-drop last start body m.0 in
    let later =
      Matches-earlier body next (start + length raw) ms (omega (arith, trim_shorter raw)) m.2 in
    Shows-same _ (drop last body) (join (part put last start body) (join here links)) cut (
      join-Shows (slice last start body) (url ++ drop next body) (part put last start body)
        (join here links) (part-Shows put h last start body)
        (join-Shows url (drop next body) here links (anchor-Shows url)
          (links_from-Shows put h body next ms later)))

-- The nodes that a message is shown with have the text of its body, whole and in order, and so have
-- those of a hit of the search, whose loop always comes to its end: for all matches of the pattern
-- that stand in the body one after the other, whatever toLowerCase does to the body, as long as it
-- leaves something of the text that is searched for.
pub shown_whole :
    (lower : Text → Text) (query body : Text) (ms : List (ℕ × Text))
    → Matches body 0 ms
    → 1 ≤ length (lower query)
    → Shows body (linkify_into body ms) × Shows body (highlight_linkify_into lower query body ms)
unfolding linkify_into highlight_linkify_into text_of
shown_whole lower query body ms m h = (
  links_from-Shows (λ t. some (plain t ∷ [])) (λ t. append-nil t) body 0 ms m,
  links_from-Shows (append_highlighted lower query) (λ t. append_highlighted-Shows lower query t h)
      body 0 ms m,
)
