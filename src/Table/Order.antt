-- ===== src/Table/Order.antt =====
-- The order of the keys in a table, and lookups in a selection of its rows.
use tele.Prelude.{
  ◌≡◌, refl, ◌≢◌, ◌⊎◌, Bool, true, false, Option, none, some, [], ◌∷◌, arith, if◌then◌else◌, ◌===◌,
  ===_iff,
}
use tele.Bytes.{Text}
use tele.Table.{text_lt, Table, lookup, put, delete, select}

text_lt_irrefl : (k : Text) → text_lt k k ≡ false
unfolding text_lt
text_lt_irrefl [] = refl
text_lt_irrefl (x ∷ xs) = ground (arith, text_lt_irrefl xs)

text_lt_trans : (a b c : Text) → text_lt a b ≡ true → text_lt b c ≡ true → text_lt a c ≡ true
unfolding text_lt
text_lt_trans a [] c h g = ground arith
text_lt_trans a (y ∷ ys) [] h g = cc
text_lt_trans [] (y ∷ ys) (z ∷ zs) h g = refl
text_lt_trans (x ∷ xs) (y ∷ ys) (z ∷ zs) h g = ground (arith, text_lt_trans xs ys zs)

-- Two texts are equal or in order.
text_lt_total : (a b : Text) → (a === b) ≡ false → text_lt b a ≡ false → text_lt a b ≡ true
unfolding text_lt ◌===◌
text_lt_total [] [] h g = cc
text_lt_total [] (y ∷ ys) h g = refl
text_lt_total (x ∷ xs) [] h g = cc
text_lt_total (x ∷ xs) (y ∷ ys) h g = ground (arith, text_lt_total xs ys)

-- Of two different texts exactly one is the smaller.
pub text_lt_one :
    (a b : Text)
    → a ≢ b
    → ((text_lt a b ≡ true) × (text_lt b a ≡ false))
      ⊎ ((text_lt a b ≡ false) × (text_lt b a ≡ true))
text_lt_one a b h =
    ground (arith, ===_iff a b, text_lt_total a b, text_lt_trans a b a, text_lt_irrefl a)

module _ {ℓ} {V : Type ℓ} where
  abbrev pub AllAfter : Text → Table V → Type 0
  AllAfter k [] = Unit {0}
  AllAfter k ((j, v) ∷ t) = (text_lt k j ≡ true) × AllAfter k t

  abbrev pub IsOrdered : Table V → Type 0
  IsOrdered [] = Unit {0}
  IsOrdered ((j, v) ∷ t) = AllAfter j t × IsOrdered t

  AllAfter-trans : (k j : Text) (t : Table V) → text_lt k j ≡ true → AllAfter j t → AllAfter k t
  AllAfter-trans k j [] h a = tt
  AllAfter-trans k j ((i, v) ∷ t) h a = (text_lt_trans k j i h a.0, AllAfter-trans k j t h a.1)

  AllAfter-put :
      (k j : Text) (v : V) (t : Table V)
      → text_lt j k ≡ true
      → AllAfter j t
      → AllAfter j (put k v t)
  unfolding put
  AllAfter-put k j v [] h a = (h, tt)
  AllAfter-put k j v ((i, w) ∷ t) h a = ground (arith, AllAfter-put k j v t h a.1)

  pub put-IsOrdered : (k : Text) (v : V) (t : Table V) → IsOrdered t → IsOrdered (put k v t)
  unfolding put
  put-IsOrdered k v [] o = (tt, tt)
  put-IsOrdered k v ((j, w) ∷ t) o = ground (
    arith,
    ===_iff j k,
    put-IsOrdered k v t o.1,
    AllAfter-trans k j t,
    text_lt_total j k,
    AllAfter-put k j v t,
  )

  AllAfter-delete : (k j : Text) (t : Table V) → AllAfter j t → AllAfter j (delete k t)
  unfolding delete
  AllAfter-delete k j [] a = tt
  AllAfter-delete k j ((i, w) ∷ t) a = ground (arith, AllAfter-delete k j t a.1)

  pub delete-IsOrdered : (k : Text) (t : Table V) → IsOrdered t → IsOrdered (delete k t)
  unfolding delete
  delete-IsOrdered k [] o = tt
  delete-IsOrdered k ((j, w) ∷ t) o =
      ground (arith, delete-IsOrdered k t o.1, AllAfter-delete k j t o.0)

  lookup_after : (k : Text) (t : Table V) → AllAfter k t → lookup k t ≡ none
  unfolding lookup
  lookup_after k [] a = refl
  lookup_after k ((j, v) ∷ t) a =
      ground (arith, ===_iff j k, text_lt_irrefl k, lookup_after k t a.1)

  abbrev pub keep : (Text → V → Bool) → Text → Option V → Option V
  keep p k none = none
  keep p k (some v) = if p k v then some v else none

  -- A row that the predicate selects is found in the selection under its key, and no other is.
  pub lookup-select :
      (p : Text → V → Bool) (k : Text) (t : Table V)
      → IsOrdered t
      → lookup k (select p t) ≡ keep p k (lookup k t)
  unfolding lookup select
  lookup-select p k [] o = refl
  lookup-select p k ((j, v) ∷ t) o =
      ground (arith, ===_iff j k, lookup-select p k t o.1, lookup_after j t o.0)
