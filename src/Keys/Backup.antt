-- ===== src/Keys/Backup.antt =====
-- The account backup of `web/app.js`: export and import, with a password or without.
pub mod Restore
pub mod RoundTrip
use tele.Prelude.{
  ℕ, Bool, not, ◌&&◌, ◌||◌, Option, none, some, List, [], ◌∷◌, ◌==◌, if◌then◌else◌, ◌===◌, codes,
}
use tele.Bytes.{Text, Bytes, starts_with}
use tele.Bytes.Base64.{◌>>=◌, u8_to_b64, b64_to_u8}
use tele.Table.{Table}
use tele.Keys.{
  Contact, Local, or_null, load_nickname, save_nickname, load_seeds, save_seeds, load_peers,
  save_peers, set,
}

-- The secret core of a backup.
pub record Inner : Type 0 where
  pub nickname : Option Text
  pub seeds : Option (Text × Text)
  pub contacts : List (Text × Contact)

-- The file: a core as it is, or iter, salt, iv and ct of an encrypted one.
pub data Envelope : Type 0 where
  plain : Inner → Envelope
  aes_gcm : ℕ → Text → Text → Text → Envelope

-- WebCrypto, and JSON with UTF-8 on a core.
pub record WebCrypto : Type 1 where
  pub Key : Type 0
  pub derive_key : Text → Bytes → ℕ → Key
  pub encrypt : Key → Bytes → Bytes → Bytes
  pub decrypt : Key → Bytes → Bytes → Option Bytes
  pub to_json : Inner → Bytes
  pub of_json : Bytes → Option Inner

-- The rows of the peer book that have a code.
unfoldable pub contact_rows : Table Contact → List (Text × Contact)
contact_rows [] = []
contact_rows ((id, p) ∷ t) =
    let rest = contact_rows t in
    if p.qr === []
    then rest
    else (id, record { qr = p.qr; label = or_null p.label; type = or_null p.type }) ∷ rest

-- buildAccountInner
unfoldable pub build_account_inner : Local → Inner
unfolding load_seeds load_nickname load_peers contact_rows u8_to_b64
build_account_inner l = record {
  nickname = load_nickname l;
  seeds = elim (load_seeds l) [
    | none ↦ none
    | some (x_seed, ed_seed) ↦ some (u8_to_b64 x_seed, u8_to_b64 ed_seed)
  ];
  contacts = contact_rows (load_peers l);
}

-- The loop of applyAccountInner over the contacts.
unfoldable pub read_contacts : List (Text × Contact) → Table Contact → Table Contact
unfolding starts_with set
read_contacts [] peers = peers
read_contacts ((id, c) ∷ contacts) peers =
    let e : Contact = record { qr = c.qr; label = or_null c.label; type = or_null c.type } in
    read_contacts contacts
      (if not (id === []) && starts_with (codes "K0") c.qr then set id e peers else peers)

-- The seeds of a core, if it has both; `none` is the exception of `atob`.
unfoldable pub apply_seeds : Option (Text × Text) → Local → Option Local
unfolding b64_to_u8 save_seeds
apply_seeds none l = some l
apply_seeds (some (x, ed)) l =
    if x === [] || ed === []
    then some l
    else do x_seed ← b64_to_u8 x; ed_seed ← b64_to_u8 ed; some (save_seeds x_seed ed_seed l)

unfoldable pub apply_nickname : Option Text → Local → Local
unfolding save_nickname
apply_nickname none l = l
apply_nickname (some n) l = if n === [] then l else save_nickname n l

-- applyAccountInner; nothing is written before the exception.
unfoldable pub apply_account_inner : Inner → Local → Option Local
unfolding apply_seeds apply_nickname read_contacts save_peers
apply_account_inner inner l = do
  l' ← apply_seeds inner.seeds l
  some (save_peers (read_contacts inner.contacts []) (apply_nickname inner.nickname l'))

-- What the import did: nothing because of a cancelled dialog, a bad password or an exception.
pub data Outcome : Type 0 where
  cancelled bad_password failed : Outcome
  imported : Local → Outcome

module _ (web : WebCrypto) where
  open web use {derive_key, encrypt, decrypt, to_json, of_json}

  -- encryptBackup
  unfoldable pub encrypt_backup : Bytes → Bytes → Inner → Text → Envelope
  unfolding u8_to_b64
  encrypt_backup salt iv inner password =
      let key = derive_key password salt 200000 in
      aes_gcm 200000 (u8_to_b64 salt) (u8_to_b64 iv) (u8_to_b64 (encrypt key iv (to_json inner)))

  -- decryptBackup
  unfoldable pub decrypt_backup : ℕ → Text → Text → Text → Text → Option Inner
  unfolding b64_to_u8
  decrypt_backup iter salt iv ct password = do
    salt' ← b64_to_u8 salt
    iv' ← b64_to_u8 iv
    ct' ← b64_to_u8 ct
    pt ← decrypt (derive_key password salt' (if iter == 0 then 200000 else iter)) iv' ct'
    of_json pt

  -- exportAccount: `pw` is the answer to the dialog, and an empty one means no encryption.
  unfoldable pub export_account : Bytes → Bytes → Option Text → Local → Option Envelope
  unfolding build_account_inner encrypt_backup
  export_account salt iv none l = none
  export_account salt iv (some pw) l =
      let inner = build_account_inner l in
      some (if pw === [] then plain inner else encrypt_backup salt iv inner pw)

  -- The dialog of importAccountFile, and what it does when it is confirmed.
  abbrev on_confirm : Bool → Inner → Local → Outcome
  on_confirm ok inner l =
      if ok
      then elim (apply_account_inner inner l) [ none ↦ failed | some l' ↦ imported l' ]
      else cancelled

  -- importAccountFile on a file of exportAccount.
  unfoldable pub import_account_file : Envelope → Option Text → Bool → Local → Outcome
  unfolding apply_account_inner decrypt_backup
  import_account_file (plain inner) pw ok l = on_confirm ok inner l
  import_account_file (aes_gcm iter salt iv ct) none ok l = cancelled
  import_account_file (aes_gcm iter salt iv ct) (some pw) ok l =
      elim (decrypt_backup iter salt iv ct pw) [
        | none ↦ bad_password
        | some inner ↦ on_confirm ok inner l
      ]
