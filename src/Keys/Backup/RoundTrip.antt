-- ===== src/Keys/Backup/RoundTrip.antt =====
-- Export and import of an account, with a password or without (`web/app.js`).
use tele.Prelude.{◌≡◌, refl, inl, inr, true, some, [], if◌then◌else◌, Bool-cases, ◌===◌, All}
use tele.Bytes.{Text, Bytes, AreBytes}
use tele.Bytes.Base64.{u8_to_b64, b64_to_u8}
use tele.Bytes.Base64.Decoding.{atob-btoa}
use tele.Storage.Rows.{trim}
use tele.Keys.{Local, load_nickname, load_seeds, load_peers}
use tele.Keys.Backup.{
  Inner, Envelope, plain, WebCrypto, build_account_inner, apply_account_inner, imported,
  encrypt_backup, decrypt_backup, export_account, import_account_file,
}
use tele.Keys.Backup.Restore.{IsDict, IsContact, restored, apply-build, restored_same}

module _ (web : WebCrypto) (salt iv : Bytes) (pw : Text) where
  open web use {derive_key, encrypt, decrypt, to_json, of_json}

  -- The bytes of `crypto.subtle.encrypt`.
  abbrev pub ciphertext : Inner → Bytes
  ciphertext inner = encrypt (derive_key pw salt 200000) iv (to_json inner)

  decrypt_backup-encrypt_backup :
      (inner : Inner)
      → AreBytes salt
      → AreBytes iv
      → AreBytes (ciphertext inner)
      → decrypt (derive_key pw salt 200000) iv (ciphertext inner) ≡ some (to_json inner)
      → of_json (to_json inner) ≡ some inner
      → decrypt_backup web 200000 (u8_to_b64 salt) (u8_to_b64 iv) (u8_to_b64 (ciphertext inner)) pw
        ≡ some inner
  unfolding decrypt_backup u8_to_b64 b64_to_u8
  decrypt_backup-encrypt_backup inner bs bi bc hd hj =
      rw (atob-btoa salt bs, atob-btoa iv bi, atob-btoa _ bc, hd, hj) refl

  -- A core that applies is imported from the file that the export made of it.
  import_of_export :
      (inner : Inner) (b l : Local)
      → AreBytes salt
      → AreBytes iv
      → AreBytes (ciphertext inner)
      → decrypt (derive_key pw salt 200000) iv (ciphertext inner) ≡ some (to_json inner)
      → of_json (to_json inner) ≡ some inner
      → apply_account_inner inner b ≡ some l
      → import_account_file web
          (if pw === [] then plain inner else encrypt_backup web salt iv inner pw)
          (some pw)
          true
          b
        ≡ imported l
  unfolding import_account_file encrypt_backup
  import_of_export inner b l bs bi bc hd hj ha = elim (Bool-cases (pw === [])) [
    | inl e ↦ rw (e, ha) refl
    | inr e ↦
        rw (e, import_account_file, decrypt_backup-encrypt_backup inner bs bi bc hd hj, ha) refl
  ]

-- An account is exported on one device with an answer to the password dialog, empty or not, and the
-- file imported on another with the same answer: the import succeeds, and the other device then loads
-- the seeds, the nickname and the contacts of the first. It is assumed that the first device has seeds,
-- a trimmed nickname and contacts as the client makes them, each id once, and that WebCrypto decrypts
-- what it encrypted with the same key and JSON is read back as it was written.
pub backup_restores :
    (web : WebCrypto) (salt iv : Bytes) (pw : Text) (a b : Local) (x ed : Bytes) (n : Text)
    → AreBytes salt
    → AreBytes iv
    → AreBytes (ciphertext web salt iv pw (build_account_inner a))
    → web.decrypt
        (web.derive_key pw salt 200000)
        iv
        (ciphertext web salt iv pw (build_account_inner a))
      ≡ some (web.to_json (build_account_inner a))
    → web.of_json (web.to_json (build_account_inner a)) ≡ some (build_account_inner a)
    → load_seeds a ≡ some (x, ed)
    → load_nickname a ≡ some n
    → trim n ≡ n
    → IsDict (load_peers a)
    → All IsContact (load_peers a)
    → (env : Envelope) × (l : Local) × (export_account web salt iv (some pw) a ≡ some env)
      × (import_account_file web env (some pw) true b ≡ imported l)
      × (load_seeds l ≡ load_seeds a)
      × (load_nickname l ≡ load_nickname a)
      × (load_peers l ≡ load_peers a)
unfolding export_account
backup_restores web salt iv pw a b x ed n bs bi bc hd hj hs hn ht hdict hc =
    let inner = build_account_inner a in
    let l = restored a b x ed n hs hn ht hdict hc in
    let (s, m, p) = restored_same a b x ed n hs hn ht hdict hc in
    (
      (if pw === [] then plain inner else encrypt_backup web salt iv inner pw),
      l,
      refl,
      import_of_export web salt iv pw inner b l bs bi bc hd hj
          (apply-build a b x ed n hs hn ht hdict hc),
      s,
      m,
      p,
    )
