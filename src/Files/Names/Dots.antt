-- ===== src/Files/Names/Dots.antt =====
-- What a sanitized name can hold.
use tele.Prelude.{
  ℕ, ◌≡◌, refl, ap, ◌∙◌, ◌≢◌, Bool, true, not, ◌&&◌, [], ◌∷◌, reverse, arith, ltb, ◌==◌,
  if◌then◌else◌, ◌===◌, codes, All,
}
use tele.Bytes.{Text, is_space}
use tele.Storage.Rows.{trim_start, trim}
use tele.Files.Names.{is_separator, is_unsafe, underscored, drop_dots, sanitize_file_name}
use mathlib.Core.List.{reverse_aux}

-- A character that may stand in a file name.
abbrev pub is_allowed : ℕ → Bool
is_allowed c =
    ltb 31 c
    && not (c == 47)
    && not (c == 92)
    && not (c == b'<')
    && not (c == b'>')
    && not (c == b':')
    && not (c == 34)
    && not (c == b'|')
    && not (c == b'?')
    && not (c == b'*')

abbrev pub IsSafe : ℕ → Type 0
IsSafe c = is_allowed c ≡ true

underscored-AreSafe : (s : Text) → All IsSafe (underscored is_unsafe (underscored is_separator s))
unfolding underscored
underscored-AreSafe [] = tt
underscored-AreSafe (c ∷ s) = (ground arith, underscored-AreSafe s)

safe_char :
    (c : ℕ)
    → IsSafe c
    → (if is_unsafe (if is_separator c then b'_' else c)
        then b'_'
        else if is_separator c
        then b'_'
        else c)
      ≡ c
safe_char c h = ground arith

-- A text of safe characters stays as it is.
underscored-same :
    (s : Text) → All IsSafe s → underscored is_unsafe (underscored is_separator s) ≡ s
unfolding underscored
underscored-same [] h = refl
underscored-same (c ∷ s) (here, rest) = rw (underscored-same s rest, safe_char c here) refl

module _ (P : ℕ → Type 0) where
  drop_dots-All : (s : Text) → All P s → All P (drop_dots s)
  unfolding drop_dots
  drop_dots-All [] h = tt
  drop_dots-All (c ∷ s) h = let rest = drop_dots-All s h.1 in ground arith

  trim_start-All : (s : Text) → All P s → All P (trim_start s)
  unfolding trim_start
  trim_start-All [] h = tt
  trim_start-All (c ∷ s) h = let rest = trim_start-All s h.1 in ground arith

  reverse-All : (s t : Text) → All P s → All P t → All P (reverse_aux s t)
  reverse-All [] t h k = k
  reverse-All (c ∷ s) t h k = reverse-All s (c ∷ t) h.1 (h.0, k)

  trim-All : (s : Text) → All P s → All P (trim s)
  unfolding trim
  trim-All s h =
      reverse-All (trim_start (reverse (trim_start s))) []
        (trim_start-All (reverse (trim_start s))
          (reverse-All (trim_start s) [] (trim_start-All s h) tt))
        tt

abbrev or_file : Text → Text
or_file s = if s === [] then codes "file" else s

or_file-AreSafe : (s : Text) → All IsSafe s → (or_file s ≢ []) × All IsSafe (or_file s)
unfolding ◌===◌
or_file-AreSafe [] h = ground arith
or_file-AreSafe (c ∷ s) h = ground arith

or_file-same : (s : Text) → s ≢ [] → or_file s ≡ s
unfolding ◌===◌
or_file-same [] h = absurd (h refl)
or_file-same (c ∷ s) h = refl

-- A sanitized name is never empty and has no path separator, no character from U+0000 to U+001F and
-- none of `<>:"|?*`.
pub sanitize_file_name-IsSafe :
    (name : Text) → (sanitize_file_name name ≢ []) × All IsSafe (sanitize_file_name name)
unfolding sanitize_file_name
sanitize_file_name-IsSafe name =
    let text = underscored is_unsafe (underscored is_separator name) in
    or_file-AreSafe (trim (drop_dots text))
      (trim-All IsSafe (drop_dots text) (drop_dots-All IsSafe text (underscored-AreSafe name)))

-- Leading dots are dropped before the name is trimmed: a name of safe characters, such as "..", that
-- neither begins nor ends with white space comes out whole behind a space, however many dots it
-- begins with.
pub dots_slip :
    (name : Text)
    → All IsSafe name
    → trim name ≡ name
    → name ≢ []
    → sanitize_file_name (b' ' ∷ name) ≡ name
unfolding sanitize_file_name underscored drop_dots trim trim_start is_space
dots_slip name h t n = ap or_file (ap trim (underscored-same name h) ∙ t) ∙ or_file-same name n
