-- ===== src/Keys/Tests.antt =====
-- Invite codes and backups on concrete inputs.
use tele.Prelude.{
  ℕ, zero, suc, ◌%◌, ◌≡◌, refl, true, Option, none, some, [], ◌∷◌, arith, ◌==◌, if◌then◌else◌,
  ◌===◌, codes, length,
}
use tele.Bytes.{Text, Bytes, is_space, starts_with}
use tele.Bytes.Base64.{
  b64_char, b64_val, btoa, is_blank, skip_space, unpad, decode, atob, b64_to_u8,
}
use tele.Table.{lookup}
use tele.Storage.Rows.{trim_start, trim}
use tele.Keys.{absent, broken, holds, Local, load_nickname, read_seeds, load_seeds, load_peers}
use tele.Keys.Backup.{
  Inner, Envelope, WebCrypto, build_account_inner, imported, export_account, import_account_file,
}
use tele.Keys.Backup.RoundTrip.{backup_restores}

abbrev copies : ℕ → ℕ → Bytes
copies zero v = []
copies (suc n) v = v ∷ copies n v

-- btoa('Man'), btoa('Ma')
encoded_man : btoa (codes "Man") ≡ codes "TWFu"
unfolding btoa b64_char
encoded_man = refl

encoded_ma : btoa (codes "Ma") ≡ codes "TWE="
unfolding btoa b64_char
encoded_ma = refl

-- atob throws for five characters, and skips white space.
decoded_five : atob (codes "TWFuT") ≡ none
unfolding atob skip_space is_blank unpad decode b64_val
decoded_five = refl

decoded_spaced : atob (codes "TW E") ≡ some (codes "Ma")
unfolding atob skip_space is_blank unpad decode b64_val
decoded_spaced = refl

abbrev ann : Local
ann = record {
  nickname = some (codes "Ann");
  seeds = holds (
    codes "AQEBAQEBAQEBAQEBAQEBAQEBAQEBAQEBAQEBAQEBAQE=",
    codes "AgICAgICAgICAgICAgICAgICAgICAgICAgICAgICAgI=",
  );
  peers = holds (
      (
        codes "0707070707070707",
        record { qr = codes "K0BwcH"; label = some (codes "Bob"); type = some (codes "claude") },
      )
      ∷ []);
}

abbrev fresh_device : Local
fresh_device = record { nickname = some (codes "x"); seeds = absent; peers = broken }

ann_seeds : load_seeds ann ≡ some (copies 32 1, copies 32 2)
unfolding load_seeds read_seeds b64_to_u8 atob skip_space is_blank unpad decode b64_val
ann_seeds = refl

abbrev ann_inner : Inner
ann_inner = build_account_inner ann

-- A toy cipher that marks the text with the length of the password.
abbrev mark_key : Text → Bytes → Bytes → Bytes
mark_key key iv pt = length key % 256 ∷ pt

abbrev check_key : Text → Bytes → Bytes → Option Bytes
check_key key iv [] = none
check_key key iv (c ∷ pt) = if c == length key % 256 then some pt else none

abbrev toy : WebCrypto
toy = record {
  Key = Text;
  derive_key = λ pw salt iter. pw;
  encrypt = mark_key;
  decrypt = check_key;
  to_json = λ i. elim i.nickname [ none ↦ [] | some n ↦ n ];
  of_json = λ b.
      some (record { nickname = some b; seeds = ann_inner.seeds; contacts = ann_inner.contacts });
}

backup_restores_example :
    (env : Envelope) × (l : Local) × (export_account toy
        (copies 16 5)
        (copies 12 6)
        (some (codes "pw"))
        ann
      ≡ some env)
    × (import_account_file toy env (some (codes "pw")) true fresh_device ≡ imported l)
    × (load_seeds l ≡ load_seeds ann)
    × (load_nickname l ≡ load_nickname ann)
    × (load_peers l ≡ load_peers ann)
backup_restores_example =
    backup_restores toy (copies 16 5) (copies 12 6) (codes "pw") ann fresh_device (copies 32 1)
      (copies 32 2) (codes "Ann") (omega arith) (omega arith)
      (unfold build_account_inner load_nickname in omega arith)
      (unfold build_account_inner load_nickname in refl)
      (unfold build_account_inner load_nickname in refl) ann_seeds (unfold load_nickname in refl)
      (unfold trim trim_start is_space in refl) (unfold load_peers lookup in (refl, tt))
      (unfold load_peers starts_with ◌===◌ in ((refl, refl, refl, refl), tt))
