-- ===== src/Keys/Qr.antt =====
-- Invite codes: `K0` and the base64url text of both public keys. handleIntroFrom writes them,
-- qrXpubBytes and extractQrText of `web/app.js` read them.
use tele.Prelude.{
  ◌≡◌, refl, Option, none, some, [], ◌∷◌, ◌++◌, map, if◌then◌else◌, ◌===◌, codes, length, take,
  drop, take-append,
}
use tele.Bytes.{Text, Bytes, AreBytes, starts_with}
use tele.Bytes.Base64.{◌>>=◌, atob, from_url, pad, to_base64_url}
use tele.Bytes.Base64.Decoding.{atob-btoa, pad-to_base64_url}
use tele.Storage.Rows.{trim}

-- `'K0' + b64` of handleIntroFrom.
unfoldable pub qr_of : Bytes → Bytes → Text
unfolding to_base64_url
qr_of x_pub ed_pub = codes "K0" ++ to_base64_url (x_pub ++ ed_pub)

-- qrXpubBytes
unfoldable pub qr_xpub_bytes : Text → Option Bytes
unfolding starts_with from_url pad atob
qr_xpub_bytes qr =
    if starts_with (codes "K0") qr
    then (do u8 ← atob (pad (map from_url (drop 2 qr))); some (take 32 u8))
    else none

module _ (search_peer : Text → Option Text) where
  -- extractQrText. `search_peer` is `new URL(t).searchParams.get('peer')`, none for an exception.
  unfoldable pub extract_qr_text : Text → Option Text
  unfolding trim starts_with
  extract_qr_text input =
      let t = trim input in
      if t === []
      then none
      else if starts_with (codes "K0") t
      then some t
      else elim (search_peer t) [
        | none ↦ none
        | some p ↦ if starts_with (codes "K0") p then some p else none
      ]

AreBytes-append : (xs ys : Bytes) → AreBytes xs → AreBytes ys → AreBytes (xs ++ ys)
AreBytes-append [] ys hx hy = hy
AreBytes-append (x ∷ xs) ys hx hy = (hx.0, AreBytes-append xs ys hx.1 hy)

-- The code that is made of the keys of an introduction gives back the first of them, from which the
-- presence subscription of the contact is made.
pub qr_xpub_bytes-qr_of :
    (x_pub ed_pub : Bytes)
    → AreBytes x_pub
    → AreBytes ed_pub
    → length x_pub ≡ 32
    → qr_xpub_bytes (qr_of x_pub ed_pub) ≡ some x_pub
unfolding qr_xpub_bytes qr_of starts_with
qr_xpub_bytes-qr_of x_pub ed_pub hx he n =
    let h = AreBytes-append x_pub ed_pub hx he in
    rw
      (
        pad-to_base64_url (x_pub ++ ed_pub) h,
        atob-btoa (x_pub ++ ed_pub) h,
        take-append 32 x_pub ed_pub n,
      )
      refl
