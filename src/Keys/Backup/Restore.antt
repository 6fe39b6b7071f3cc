-- ===== src/Keys/Backup/Restore.antt =====
-- What an import gets back from an export of `web/app.js`.
use mathlib.Core.Option.{some-injective}
use mathlib.Core.Path.{subst}
use tele.Prelude.{
  ℕ, ◌≡◌, refl, sym, ap, ◌∙◌, inl, inr, true, false, Option, none, some, [], ◌∷◌, ◌++◌, append-nil,
  append_assoc, arith, ◌==◌, ==_iff, Bool-cases, ◌===◌, codes, ===_iff, length, All,
}
use tele.Bytes.{Text, Bytes, AreBytes, starts_with}
use tele.Bytes.Base64.{>>=-eq-some, btoa, atob, u8_to_b64, b64_to_u8}
use tele.Bytes.Base64.Decoding.{atob-btoa, atob-AreBytes}
use tele.Table.{Table, lookup}
use tele.Storage.Rows.{trim}
use tele.Keys.{
  Item, absent, broken, holds, Contact, Local, or_null, load_nickname, save_nickname, check_seeds,
  read_seeds, load_seeds, save_seeds, load_peers, save_peers, set, lookup-set, set_new,
}
use tele.Keys.Backup.{
  contact_rows, build_account_inner, read_contacts, apply_seeds, apply_nickname,
  apply_account_inner,
}

-- Every key stands once.
abbrev pub IsDict : Table Contact → Type 0
IsDict [] = Unit {0}
IsDict ((k, v) ∷ t) = (lookup k t ≡ none) × IsDict t

-- The entry of a contact that the client itself made: an id, an invite code, no empty texts.
abbrev pub IsContact : Text × Contact → Type 0
IsContact (id, c) =
    ((id === []) ≡ false)
    × (starts_with (codes "K0") c.qr ≡ true)
    × (or_null c.label ≡ c.label)
    × (or_null c.type ≡ c.type)

abbrev IsFresh : Table Contact → Table Contact → Type 0
IsFresh acc = All (λ e. lookup e.0 acc ≡ none)

IsFresh-set :
    (k : Text) (v : Contact) (acc t : Table Contact)
    → lookup k t ≡ none
    → IsFresh acc t
    → IsFresh (set k v acc) t
unfolding lookup
IsFresh-set k v acc [] h hf = tt
IsFresh-set k v acc ((j, w) ∷ t) h hf = elim (Bool-cases (j === k)) [
  | inl e ↦ absurd (ground (arith, e))
  | inr e ↦ (
    rw (lookup-set k j v acc) (ground (arith, ===_iff j k, ===_iff k j, hf.0)),
    IsFresh-set k v acc t (ground (arith, e)) hf.1,
  )
]

-- A code is not empty.
qr_not_empty : (s : Text) → starts_with (codes "K0") s ≡ true → (s === []) ≡ false
unfolding starts_with ◌===◌
qr_not_empty [] h = cc
qr_not_empty (c ∷ s) h = refl

contact_row :
    (id : Text) (c : Contact) (t : Table Contact)
    → IsContact (id, c)
    → contact_rows ((id, c) ∷ t) ≡ (id, c) ∷ contact_rows t
unfolding contact_rows
contact_row id c t h = rw (qr_not_empty c.qr h.1, h.2, h.3) refl

read_contact :
    (id : Text) (c : Contact) (rows acc : Table Contact)
    → IsContact (id, c)
    → lookup id acc ≡ none
    → read_contacts ((id, c) ∷ rows) acc ≡ read_contacts rows (acc ++ ((id, c) ∷ []))
unfolding read_contacts
read_contact id c rows acc h f = rw (h.0, h.1, h.2, h.3, set_new id c acc f) refl

read_contacts-contact_rows :
    (t acc : Table Contact)
    → IsDict t
    → All IsContact t
    → IsFresh acc t
    → read_contacts (contact_rows t) acc ≡ acc ++ t
read_contacts-contact_rows [] acc hd hc hf =
    unfold contact_rows read_contacts in sym (append-nil acc)
read_contacts-contact_rows ((id, c) ∷ t) acc hd hc hf =
    rw (contact_row id c t hc.0, read_contact id c (contact_rows t) acc hc.0 hf.0)
      (read_contacts-contact_rows t (acc ++ ((id, c) ∷ [])) hd.1 hc.1 (
          subst (λ (a : Table Contact). IsFresh a t) (set_new id c acc hf.0)
            (IsFresh-set id c acc t hd.0 hf.1))
        ∙ append_assoc acc ((id, c) ∷ []) t)

load_seeds-save_seeds :
    (x ed : Bytes) (l : Local)
    → AreBytes x
    → AreBytes ed
    → length x ≡ 32
    → length ed ≡ 32
    → load_seeds (save_seeds x ed l) ≡ some (x, ed)
unfolding load_seeds save_seeds u8_to_b64 b64_to_u8
load_seeds-save_seeds x ed l hx he nx ne = rw (atob-btoa x hx, atob-btoa ed he, nx, ne) refl

checked_seeds :
    (u v x ed : Bytes)
    → check_seeds u v ≡ some (x, ed)
    → AreBytes u
    → AreBytes v
    → AreBytes x × AreBytes ed × (length x ≡ 32) × (length ed ≡ 32)
checked_seeds u v x ed h bu bv = elim (Bool-cases (length u == 32)) [
  | inl e ↦ elim (Bool-cases (length v == 32)) [
    | inl f ↦
        let h' : some (u, v) ≡ some (x, ed) = sym (rw (e, f) refl) ∙ h in
        let q = some-injective _ _ h' in
        (
          subst AreBytes (ap (λ (p : Bytes × Bytes). p.0) q) bu,
          subst AreBytes (ap (λ (p : Bytes × Bytes). p.1) q) bv,
          sym (ap (λ (p : Bytes × Bytes). length p.0) q) ∙ (==_iff (length u) 32).0 e,
          sym (ap (λ (p : Bytes × Bytes). length p.1) q) ∙ (==_iff (length v) 32).0 f,
        )
    | inr f ↦ absurd (ground (arith, e, f, h))
  ]
  | inr e ↦ absurd (ground (arith, e, h))
]

-- Loaded seeds are byte strings of 32.
read_seeds_bytes :
    (i : Item (Text × Text)) (x ed : Bytes)
    → read_seeds i ≡ some (x, ed)
    → AreBytes x × AreBytes ed × (length x ≡ 32) × (length ed ≡ 32)
unfolding read_seeds b64_to_u8
read_seeds_bytes absent x ed h = cc
read_seeds_bytes broken x ed h = cc
read_seeds_bytes (holds (s, t)) x ed h =
    let (u, hu, h1) = >>=-eq-some (atob s) _ h in
    let (v, hv, h2) = >>=-eq-some (atob t) _ h1 in
    checked_seeds u v x ed h2 (atob-AreBytes s u hu) (atob-AreBytes t v hv)

btoa_not_empty : (x : Bytes) → length x ≡ 32 → (btoa x === []) ≡ false
unfolding btoa ◌===◌
btoa_not_empty [] h = absurd (omega arith)
btoa_not_empty (a ∷ []) h = refl
btoa_not_empty (a ∷ b ∷ []) h = refl
btoa_not_empty (a ∷ b ∷ c ∷ x) h = refl

apply_seeds-b64 :
    (x ed : Bytes) (l : Local)
    → AreBytes x
    → AreBytes ed
    → length x ≡ 32
    → length ed ≡ 32
    → apply_seeds (some (u8_to_b64 x, u8_to_b64 ed)) l ≡ some (save_seeds x ed l)
unfolding apply_seeds u8_to_b64 b64_to_u8
apply_seeds-b64 x ed l hx he nx ne =
    rw (btoa_not_empty x nx, btoa_not_empty ed ne, atob-btoa x hx, atob-btoa ed he) refl

-- A nickname as loadNickname returns it is not empty.
or_null-some : (o : Option Text) (n : Text) → or_null o ≡ some n → (n === []) ≡ false
unfolding ◌===◌
or_null-some none n h = cc
or_null-some (some []) n h = cc
or_null-some (some (c ∷ s)) n h = rw (← some-injective _ _ h) refl

or_null_again : (o : Option Text) (n : Text) → or_null o ≡ some n → or_null (some n) ≡ some n
or_null_again none n h = cc
or_null_again (some []) n h = cc
or_null_again (some (c ∷ s)) n h = rw (← some-injective _ _ h) refl

save_nickname_trimmed :
    (c : ℕ) (s : Text) (l : Local)
    → trim (c ∷ s) ≡ c ∷ s
    → save_nickname (c ∷ s) l ≡ record l { nickname = some (c ∷ s) }
unfolding save_nickname
save_nickname_trimmed c s l h = rw (h, save_nickname) refl

apply_nickname-loaded :
    (o : Option Text) (n : Text) (l : Local)
    → or_null o ≡ some n
    → trim n ≡ n
    → apply_nickname (some n) l ≡ record l { nickname = some n }
unfolding apply_nickname
apply_nickname-loaded o [] l h ht = absurd (unfold ◌===◌ in cc (or_null-some o [] h))
apply_nickname-loaded o (c ∷ s) l h ht =
    rw (or_null-some o (c ∷ s) h) (save_nickname_trimmed c s l ht)

IsFresh-nil : (t : Table Contact) → IsFresh [] t
unfolding lookup
IsFresh-nil [] = tt
IsFresh-nil (e ∷ t) = (refl, IsFresh-nil t)

module _ (a b : Local) (x ed : Bytes) (n : Text) (hs : load_seeds a ≡ some (x, ed))
    (hn : load_nickname a ≡ some n) (ht : trim n ≡ n) (hd : IsDict (load_peers a))
    (hc : All IsContact (load_peers a)) where
  -- The device after the import: nothing of what it had is left.
  abbrev pub restored : Local
  restored = record {
    nickname = some n;
    seeds = holds (u8_to_b64 x, u8_to_b64 ed);
    peers = holds (load_peers a);
  }

  build_lem : build_account_inner a ≡ record {
    nickname = some n;
    seeds = some (u8_to_b64 x, u8_to_b64 ed);
    contacts = contact_rows (load_peers a);
  }
  unfolding build_account_inner
  build_lem = rw (hs, hn, build_account_inner) refl

  pub apply-build : apply_account_inner (build_account_inner a) b ≡ some restored
  unfolding apply_account_inner
  apply-build =
      let (bx, be, nx, ne) = read_seeds_bytes a.seeds x ed (unfold load_seeds in hs) in
      rw
        (
          build_lem,
          apply_seeds-b64 x ed b bx be nx ne,
          apply_account_inner,
          read_contacts-contact_rows (load_peers a) [] hd hc (IsFresh-nil (load_peers a)),
        )
        (unfold save_peers save_seeds in
          ap (λ (l : Local). some (save_peers (load_peers a) l))
            (apply_nickname-loaded a.nickname n (save_seeds x ed b) (unfold load_nickname in hn)
              ht))

  pub restored_same :
      (load_seeds restored ≡ load_seeds a)
      × (load_nickname restored ≡ load_nickname a)
      × (load_peers restored ≡ load_peers a)
  restored_same =
      let (bx, be, nx, ne) = read_seeds_bytes a.seeds x ed (unfold load_seeds in hs) in
      let e : load_seeds restored ≡ some (x, ed) =
        unfold save_seeds in load_seeds-save_seeds x ed restored bx be nx ne in
      (
        e ∙ sym hs,
        unfold load_nickname in or_null_again a.nickname n hn ∙ sym hn,
        unfold load_peers in refl,
      )
