-- ===== src/Table.antt =====
-- One object store of IndexedDB with a text key, as `web/DB.js` uses it: DB.add (mode 'replace'),
-- DB.get by key and by predicate, DB.del by key and DB.truncate. The rows stand in the order of
-- their keys, which is the order in which a cursor visits them.
pub mod Order
use tele.Prelude.{
  ◌≡◌, refl, inl, inr, Bool, true, false, ◌&&◌, ◌||◌, Option, none, some, List, [], ◌∷◌, arith, ltb,
  ◌==◌, if◌then◌else◌, Bool-cases, ◌===◌, ===_refl, ===_iff,
}
use tele.Bytes.{Text}

-- The order of IndexedDB on texts.
unfoldable pub text_lt : Text → Text → Bool
text_lt xs [] = false
text_lt [] (y ∷ ys) = true
text_lt (x ∷ xs) (y ∷ ys) = ltb x y || x == y && text_lt xs ys

abbrev pub Table {ℓ} : Type ℓ → Type ℓ
Table V = List (Text × V)

module _ {ℓ} {V : Type ℓ} where
  -- DB.get by key; `none` is undefined.
  unfoldable pub lookup : Text → Table V → Option V
  lookup k [] = none
  lookup k ((j, v) ∷ t) = if j === k then some v else lookup k t

  -- DB.add: `put` overwrites the row of its key.
  unfoldable pub put : Text → V → Table V → Table V
  put k v [] = (k, v) ∷ []
  put k v ((j, w) ∷ t) =
      let rest = put k v t in
      if j === k then (k, v) ∷ t else if text_lt k j then (k, v) ∷ (j, w) ∷ t else (j, w) ∷ rest

  -- DB.del by key.
  unfoldable pub delete : Text → Table V → Table V
  delete k [] = []
  delete k ((j, v) ∷ t) = let rest = delete k t in if j === k then rest else (j, v) ∷ rest

  -- DB.get by predicate.
  unfoldable pub select : (Text → V → Bool) → Table V → Table V
  select p [] = []
  select p ((j, v) ∷ t) = let rest = select p t in if p j v then (j, v) ∷ rest else rest

  -- A later row of the same key cannot be seen; a table that is built by `put` has none.
  pub lookup-put :
      (k j : Text) (v : V) (t : Table V)
      → lookup j (put k v t) ≡ (if k === j then some v else lookup j t)
  unfolding lookup put
  lookup-put k j v [] = refl
  lookup-put k j v ((i, w) ∷ t) =
      ground (arith, ===_iff k j, ===_iff i k, ===_iff i j, lookup-put k j v t)

  pub lookup-delete :
      (k j : Text) (t : Table V) → lookup j (delete k t) ≡ (if k === j then none else lookup j t)
  unfolding lookup delete
  lookup-delete k j [] = ground arith
  lookup-delete k j ((i, w) ∷ t) =
      ground (arith, ===_iff k j, ===_iff i k, ===_iff i j, lookup-delete k j t)

pub lookup-put_self {ℓ} :
    {V : Type ℓ} (k : Text) (v : V) (t : Table V) → lookup k (put k v t) ≡ some v
lookup-put_self k v t = simp (lookup-put, ===_refl)

pub lookup-delete_self {ℓ} : {V : Type ℓ} (k : Text) (t : Table V) → lookup k (delete k t) ≡ none
lookup-delete_self k t = simp (lookup-delete, ===_refl)

-- A property of every entry lasts through a write that has it.
pub put_keeps {ℓ κ} :
    {V : Type ℓ} (P : Text → Option V → Type κ) (k : Text) (v : V) (t : Table V)
    → P k (some v)
    → ((j : Text) → P j (lookup j t))
    → (j : Text) → P j (lookup j (put k v t))
put_keeps P k v t h all j = elim (Bool-cases (k === j)) [
  | inl e ↦ rw (lookup-put k j v t, e, ← (===_iff k j).0 e) h
  | inr e ↦ rw (lookup-put k j v t, e) (all j)
]

pub delete_keeps {ℓ κ} :
    {V : Type ℓ} (P : Text → Option V → Type κ) (k : Text) (t : Table V)
    → P k none
    → ((j : Text) → P j (lookup j t))
    → (j : Text) → P j (lookup j (delete k t))
delete_keeps P k t h all j = elim (Bool-cases (k === j)) [
  | inl e ↦ rw (lookup-delete k j t, e, ← (===_iff k j).0 e) h
  | inr e ↦ rw (lookup-delete k j t, e) (all j)
]

pub ruleset table_laws = (lookup-put, lookup-delete)
