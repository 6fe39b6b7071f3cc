-- ===== src/Book/Tests.antt =====
-- The address book on concrete inputs.
use tele.Prelude.{
  ℕ, zero, suc, ◌<◌, ◌≡◌, refl, true, false, Option, none, some, List, [], ◌∷◌, ◌++◌, arith, ◌===◌,
  codes, take,
}
use tele.Bytes.{Text, Bytes, AreBytes, hex_digit, hex_of}
use tele.Table.{lookup, delete}
use tele.Keys.{absent, or_null}
use tele.Keys.Qr.{qr_xpub_bytes}
use tele.Storage.{empty_store}
use tele.Book.{Peer, Book, stripped, persist, is_banned, forget, ban_of, with_ban, ban_contact}
use tele.Book.Server.{cmd_intro_from, split_nick_type, accept_intro, handle_intro_from, on_server}
use tele.Book.Bans.Frames.{Inv}
use tele.Book.Bans.{Event, server, ban, unban, run, banned_stays_out}
use tele.Book.Reload.{reload, intro_survives}

abbrev copies : ℕ → ℕ → Bytes
copies zero v = []
copies (suc n) v = v ∷ copies n v

copies-AreBytes : (n v : ℕ) → v < 256 → AreBytes (copies n v)
copies-AreBytes zero v h = tt
copies-AreBytes (suc n) v h = (h, copies-AreBytes n v h)

abbrev keep : Bytes → Text
keep s = s

abbrev first_eight : Bytes → Bytes → Option Bytes
first_eight x_pub ed_pub = some (take 8 x_pub)

abbrev empty_book : Book
empty_book = record {
  peers = [];
  blacklist = [];
  saved_bans = [];
  local = record { nickname = none; seeds = absent; peers = absent };
  store = empty_store;
  unread = [];
  missed = [];
  current = none;
  effects = [];
}

abbrev ann_id : Text
ann_id = codes "0707070707070707"

abbrev intro_of_ann : Bytes
intro_of_ann = copies 32 7 ++ copies 32 9 ++ codes "Ann"

abbrev ann : Peer
ann = record {
  qr = codes "K0BwcH";
  label = some (codes "Ann");
  type = some (codes "claude");
  online = true;
}

abbrev book_of_ann : Book
book_of_ann = record empty_book { peers = (ann_id, ann) ∷ [] }

abbrev busy : List Event
busy =
    server cmd_intro_from intro_of_ann
    ∷ ban ann_id
    ∷ server cmd_intro_from intro_of_ann
    ∷ unban ann_id
    ∷ []

empty-Inv : Inv empty_book
empty-Inv = record { at = λ k h. unfold lookup in refl }

banned_stays_out_example : Inv (run keep keep first_eight busy empty_book)
banned_stays_out_example = banned_stays_out keep keep first_eight busy empty_book empty-Inv

-- A banned peer introduces himself again, and is still out.
banned_intro :
    (run keep keep first_eight
      (ban ann_id ∷ server cmd_intro_from intro_of_ann ∷ [])
      book_of_ann).peers
    ≡ []
unfolding run ban_contact with_ban is_banned ban_of forget persist on_server handle_intro_from
    accept_intro hex_of hex_digit delete lookup ◌===◌ stripped
banned_intro = refl

intro_survives_example :
    (p : Peer) × (lookup
        (hex_of (copies 8 7))
        (reload (
          on_server keep keep first_eight cmd_intro_from
            (copies 32 7 ++ copies 32 9 ++ codes "Ann")
            empty_book)).peers
      ≡ some p)
    × (qr_xpub_bytes p.qr ≡ some (copies 32 7))
    × (p.label ≡ or_null (some (split_nick_type keep keep first_eight (keep (codes "Ann"))).0))
    × (p.type ≡ none)
    × (p.online ≡ false)
intro_survives_example =
    intro_survives keep keep first_eight (copies 32 7) (copies 32 9) (codes "Ann") (copies 8 7)
      empty_book (copies-AreBytes 32 7 (omega arith)) (copies-AreBytes 32 9 (omega arith)) refl refl
      refl (unfold is_banned in refl) (unfold lookup in refl)
