-- ===== src/Files/Names.antt =====
-- The names under which files are handed to the phone: sanitizeFileName of `web/app.js`. The name of a
-- file that came from a peer is the peer's.
pub mod Dots
use tele.Prelude.{ℕ, Bool, ◌||◌, [], ◌∷◌, leb, ◌==◌, if◌then◌else◌, ◌===◌, codes}
use tele.Bytes.{Text}
use tele.Storage.Rows.{trim}

-- `[\/\\]`
abbrev pub is_separator : ℕ → Bool
is_separator c = c == 47 || c == 92

-- `[\x00-\x1f<>:"|?*]`
abbrev pub is_unsafe : ℕ → Bool
is_unsafe c =
    leb c 31
    || c == b'<'
    || c == b'>'
    || c == b':'
    || c == 34
    || c == b'|'
    || c == b'?'
    || c == b'*'

-- `replace` of each character of a class by an underscore
unfoldable pub underscored : (ℕ → Bool) → Text → Text
underscored f [] = []
underscored f (c ∷ s) = (if f c then b'_' else c) ∷ underscored f s

-- `.replace(/^\.+/, '')`
unfoldable pub drop_dots : Text → Text
drop_dots [] = []
drop_dots (c ∷ s) = let rest = drop_dots s in if c == b'.' then rest else c ∷ s

-- sanitizeFileName
unfoldable pub sanitize_file_name : Text → Text
unfolding trim underscored drop_dots
sanitize_file_name name =
    let cleaned = trim (drop_dots (underscored is_unsafe (underscored is_separator name))) in
    if cleaned === [] then codes "file" else cleaned
