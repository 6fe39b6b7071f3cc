-- ===== src/Chat/Links/Hits.antt =====
-- What appendHighlighted of `web/app.js` shows of a text.
use mathlib.Core.Option.{some-injective}
use tele.Prelude.{
  ℕ, zero, suc, ◌+◌, ◌-◌, ◌≤◌, ◌<◌, ◌≡◌, refl, sym, ap, ◌∙◌, inl, inr, Bool, true, false, Option,
  none, some, List, [], ◌∷◌, ◌++◌, append-nil, append_assoc, arith, ltb, if◌then◌else◌, Bool-cases,
  Option-cases, length, take, drop, take-append-drop, length-drop, slice,
}
use tele.Bytes.{Text, starts_with}
use tele.Chat.Links.{Node, plain, anchor, marked, join, find, highlight_from, append_highlighted}

unfoldable pub text_of : List Node → Text
text_of [] = []
text_of (plain t ∷ ns) = t ++ text_of ns
text_of (anchor t ∷ ns) = t ++ text_of ns
text_of (marked t ∷ ns) = t ++ text_of ns

-- What is shown has this text.
abbrev pub Shows : Text → Option (List Node) → Type 0
Shows t none = ⊥
Shows t (some ns) = text_of ns ≡ t

text_of-append : (xs ys : List Node) → text_of (xs ++ ys) ≡ text_of xs ++ text_of ys
unfolding text_of
text_of-append [] ys = refl
text_of-append (plain t ∷ xs) ys =
    rw (text_of-append xs ys) (sym (append_assoc t (text_of xs) (text_of ys)))
text_of-append (anchor t ∷ xs) ys =
    rw (text_of-append xs ys) (sym (append_assoc t (text_of xs) (text_of ys)))
text_of-append (marked t ∷ xs) ys =
    rw (text_of-append xs ys) (sym (append_assoc t (text_of xs) (text_of ys)))

pub join-Shows :
    (s t : Text) (xs ys : Option (List Node))
    → Shows s xs
    → Shows t ys
    → Shows (s ++ t) (join xs ys)
join-Shows s t none ys h k = absurd h
join-Shows s t (some xs) none h k = absurd k
join-Shows s t (some xs) (some ys) h k = rw (text_of-append xs ys, h, k) refl

pub Shows-same : (s t : Text) (xs : Option (List Node)) → s ≡ t → Shows s xs → Shows t xs
Shows-same s t none e h = h
Shows-same s t (some xs) e h = h ∙ e

drop-nil : (n : ℕ) → drop {A = ℕ} n [] ≡ []
drop-nil zero = refl
drop-nil (suc n) = refl

pub drop-drop : (m n : ℕ) (s : Text) → drop n (drop m s) ≡ drop (m + n) s
drop-drop zero n s = ap (λ k. drop k s) (omega arith)
drop-drop (suc m) n [] = drop-nil n ∙ sym (drop-nil (suc m + n))
drop-drop (suc m) n (c ∷ s) =
    let e : suc (m + n) ≡ suc m + n = omega arith in drop-drop m n s ∙ ap (λ k. drop k (c ∷ s)) e

pub slice-append-drop : (a b : ℕ) (s : Text) → a ≤ b → slice a b s ++ drop b s ≡ drop a s
slice-append-drop a b s h =
    let e : b ≡ a + (b - a) = omega arith in
    ap (λ l. slice a b s ++ l) (ap (λ k. drop k s) e ∙ sym (drop-drop a (b - a) s))
    ∙ take-append-drop (b - a) (drop a s)

starts_with_bound : (q s : Text) → starts_with q s ≡ true → length q ≤ length s
unfolding starts_with
starts_with_bound [] s h = omega arith
starts_with_bound (c ∷ q) [] h = absurd (cc h)
starts_with_bound (c ∷ q) (d ∷ s) h = ground (arith, starts_with_bound q s, h)

find_bound : (q hay : Text) (i : ℕ) → find q hay ≡ some i → i + length q ≤ length hay
unfolding find
find_bound q [] i h = absurd (cc h)
find_bound q (c ∷ hay) i h = elim (Bool-cases (starts_with q (c ∷ hay))) [
  | inl e ↦
      let z : 0 ≡ i = some-injective _ _ (sym (rw (e, find) refl) ∙ h) in
      omega (arith, z, starts_with_bound q (c ∷ hay) e)
  | inr e ↦ elim (Option-cases (find q hay)) [
    | inl f ↦ absurd (ground (arith, h, e, f))
    | inr (j, f) ↦
        let z : suc j ≡ i = some-injective _ _ (sym (rw (e, find, f) refl) ∙ h) in
        omega (arith, z, find_bound q hay j f)
  ]
]

pub slice_empty : (a b : ℕ) (s : Text) → b ≤ a → slice a b s ≡ []
slice_empty a b s h = let e : b - a ≡ 0 = omega arith in ap (λ k. take k (drop a s)) e

pub drop_all : (n : ℕ) (s : Text) → length s ≤ n → drop n s ≡ []
drop_all n [] h = drop-nil n
drop_all zero (c ∷ s) h = absurd (omega arith)
drop_all (suc n) (c ∷ s) h = drop_all n s (omega arith)

-- A text that is shown only where it is not empty.
shown_if-Shows :
    (b : Bool) (t : Text) → (b ≡ false → t ≡ []) → Shows t (some (if b then plain t ∷ [] else []))
unfolding text_of
shown_if-Shows true t h = append-nil t
shown_if-Shows false t h = sym (h refl)

before-Shows :
    (a b : ℕ) (s : Text)
    → Shows (slice a b s) (some (if ltb a b then plain (slice a b s) ∷ [] else []))
before-Shows a b s =
    shown_if-Shows (ltb a b) (slice a b s) (λ e. slice_empty a b s (ground (arith, e)))

rest-Shows :
    (n : ℕ) (s : Text)
    → Shows (drop n s) (some (if ltb n (length s) then plain (drop n s) ∷ [] else []))
rest-Shows n s =
    shown_if-Shows (ltb n (length s)) (drop n s) (λ e. drop_all n s (ground (arith, e)))

marked-Shows : (t : Text) → Shows t (some (marked t ∷ []))
unfolding text_of
marked-Shows t = append-nil t

pub anchor-Shows : (t : Text) → Shows t (some (anchor t ∷ []))
unfolding text_of
anchor-Shows t = append-nil t

-- The hits are found one after another, each behind the one before, so the fuel lasts.
highlight_from-Shows :
    (n : ℕ) (q hay text : Text) (from : ℕ)
    → 1 ≤ length q
    → from ≤ length hay
    → length hay < n + from
    → Shows (drop from text) (highlight_from n q hay text from)
unfolding highlight_from
highlight_from-Shows zero q hay text from hq hf hn = absurd (omega arith)
highlight_from-Shows (suc n) q hay text from hq hf hn =
    elim (Option-cases (find q (drop from hay))) [
      | inl e ↦ rw (e, highlight_from) (rest-Shows from text)
      | inr (i, e) ↦
          let b = find_bound q (drop from hay) i e in
          let l = length-drop from hay in
          let idx = from + i in
          let to = idx + length q in
          let cut =
            ap (λ t. slice from idx text ++ t) (slice-append-drop idx to text (omega arith))
            ∙ slice-append-drop from idx text (omega arith) in
          let hits = highlight_from n q hay text to in
          let hit = some (marked (slice idx to text) ∷ []) in
          let before = some (if ltb from idx then plain (slice from idx text) ∷ [] else []) in
          rw (e, highlight_from)
            (Shows-same _ (drop from text) (join before (join hit hits)) cut (
              join-Shows (slice from idx text) (slice idx to text ++ drop to text) before
                (join hit hits) (before-Shows from idx text)
                (join-Shows (slice idx to text) (drop to text) hit hits
                  (marked-Shows (slice idx to text))
                  (highlight_from-Shows n q hay text to hq (omega arith) (omega arith)))))
    ]

pub append_highlighted-Shows :
    (lower : Text → Text) (query text : Text)
    → 1 ≤ length (lower query)
    → Shows text (append_highlighted lower query text)
unfolding append_highlighted
append_highlighted-Shows lower query text h =
    highlight_from-Shows (suc (length (lower text))) (lower query) (lower text) text 0 h
      (omega arith) (omega arith)
