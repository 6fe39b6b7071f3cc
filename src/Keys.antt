-- ===== src/Keys.antt =====
-- The key store of `web/keystore.js`, what it keeps in localStorage, and the settings of
-- `web/app.js` beside it. An item that was written with JSON.stringify is kept as the value that
-- JSON.parse gives back.
pub mod Qr
pub mod Backup
pub mod Tests
use tele.Prelude.{
  ◌≡◌, refl, inl, inr, not, ◌||◌, Option, none, some, [], ◌∷◌, ◌++◌, arith, ◌==◌, if◌then◌else◌,
  Bool-cases, ◌===◌, ===_iff, length,
}
use tele.Bytes.{Text, Bytes}
use tele.Bytes.Base64.{◌>>=◌, u8_to_b64, b64_to_u8}
use tele.Table.{Table, lookup}
use tele.Storage.Rows.{trim}

-- An item that is missing, or whose text is not the JSON of a value of its type.
pub data Item {ℓ} (A : Type ℓ) : Type ℓ where
  absent broken : Item A
  holds : A → Item A

-- An entry of the peer book as it is stored; `type` is none for a person.
pub record Contact : Type 0 where
  pub qr : Text
  pub label : Option Text
  pub type : Option Text

-- An entry of the blacklist.
pub record Ban : Type 0 where
  pub id : Text
  pub qr : Option Text
  pub label : Option Text

pub record Local : Type 0 where
  pub nickname : Option Text
  pub seeds : Item (Text × Text)
  pub peers : Item (Table Contact)

-- `s || null` for a text or null.
abbrev pub or_null : Option Text → Option Text
or_null none = none
or_null (some []) = none
or_null (some (c ∷ s)) = some (c ∷ s)

-- `a || b`
abbrev pub or_else : Option Text → Option Text → Option Text
or_else (some (c ∷ s)) b = some (c ∷ s)
or_else none b = b
or_else (some []) b = b

-- loadNickname
unfoldable pub load_nickname : Local → Option Text
load_nickname l = or_null l.nickname

-- saveNickname
unfoldable pub save_nickname : Text → Local → Local
unfolding trim
save_nickname s l = elim (trim s) [ [] ↦ l | c ∷ t ↦ record l { nickname = some (c ∷ t) } ]

-- wipeNickname
unfoldable pub wipe_nickname : Local → Local
wipe_nickname l = record l { nickname = none }

-- `x.length !== 32 || ed.length !== 32`
abbrev pub check_seeds : Bytes → Bytes → Option (Bytes × Bytes)
check_seeds x ed = if not (length x == 32) || not (length ed == 32) then none else some (x, ed)

-- The item of the seeds, with the check of their lengths.
unfoldable pub read_seeds : Item (Text × Text) → Option (Bytes × Bytes)
unfolding b64_to_u8
read_seeds absent = none
read_seeds broken = none
read_seeds (holds (x, ed)) = do
  x_seed ← b64_to_u8 x
  ed_seed ← b64_to_u8 ed
  check_seeds x_seed ed_seed

-- loadSeeds
unfoldable pub load_seeds : Local → Option (Bytes × Bytes)
unfolding read_seeds
load_seeds l = read_seeds l.seeds

-- saveSeeds
unfoldable pub save_seeds : Bytes → Bytes → Local → Local
unfolding u8_to_b64
save_seeds x_seed ed_seed l = record l { seeds = holds (u8_to_b64 x_seed, u8_to_b64 ed_seed) }

-- wipeSeeds
unfoldable pub wipe_seeds : Local → Local
wipe_seeds l = record l { seeds = absent }

-- loadPeers
unfoldable pub load_peers : Local → Table Contact
load_peers l = elim l.peers [ absent ↦ [] | broken ↦ [] | holds dict ↦ dict ]

-- savePeers
unfoldable pub save_peers : Table Contact → Local → Local
save_peers dict l = record l { peers = holds dict }

-- wipeIdentity, without Storage.wipe
unfoldable pub wipe_identity : Local → Local
unfolding wipe_seeds wipe_nickname save_peers
wipe_identity l = save_peers [] (wipe_nickname (wipe_seeds l))

-- `dict[k] = v`: a new key stands last.
unfoldable pub set {ℓ} : {V : Type ℓ} → Text → V → Table V → Table V
set k v [] = (k, v) ∷ []
set k v ((j, w) ∷ t) = let rest = set k v t in if j === k then (k, v) ∷ t else (j, w) ∷ rest

pub lookup-set {ℓ} :
    {V : Type ℓ} (k j : Text) (v : V) (t : Table V)
    → lookup j (set k v t) ≡ (if k === j then some v else lookup j t)
unfolding lookup set
lookup-set k j v [] = refl
lookup-set k j v ((i, w) ∷ t) =
    ground (arith, ===_iff k j, ===_iff i k, ===_iff i j, lookup-set k j v t)

pub set_new {ℓ} :
    {V : Type ℓ} (k : Text) (v : V) (t : Table V)
    → lookup k t ≡ none
    → set k v t ≡ t ++ ((k, v) ∷ [])
unfolding lookup set
set_new k v [] h = refl
set_new k v ((i, w) ∷ t) h = elim (Bool-cases (i === k)) [
  | inl e ↦ absurd (ground (arith, e))
  | inr e ↦ rw (e, set_new k v t (ground (arith, e)))
]
