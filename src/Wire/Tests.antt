-- ===== src/Wire/Tests.antt =====
-- The wire format on ASCII texts, with JSON booleans for the payload.
use tele.Prelude.{
  ◌≡◌, refl, Bool, true, false, ◌&&◌, Option, none, some, [], ◌∷◌, arith, ltb, if◌then◌else◌, ◌===◌,
  codes,
}
use tele.Bytes.{Text, Bytes, AreBytes, uuid_from_bytes}
use tele.Wire.{WebText, on_peer_message}
use tele.Wire.RoundTrip.{IsUuid, file_chunk, frame_of, meant, on_peer_message-frame_of}

abbrev json_text : Bool → Text
json_text true = codes "true"
json_text false = codes "false"

abbrev json_value : Text → Option Bool
json_value s =
    if s === codes "true" then some true else if s === codes "false" then some false else none

abbrev is_ascii : Text → Bool
is_ascii [] = true
is_ascii (c ∷ s) = let rest = is_ascii s in ltb c 128 && rest

pub json_value-json_text : (j : Bool) → json_value (json_text j) ≡ some j
unfolding ◌===◌
json_value-json_text true = refl
json_value-json_text false = refl

pub json_text_ascii : (j : Bool) → is_ascii (json_text j) ≡ true
json_text_ascii true = refl
json_text_ascii false = refl

abbrev pub ascii : WebText
ascii = record {
  Json = Bool;
  encode = λ s. s;
  decode = λ b. b;
  is_clean = is_ascii;
  decode-encode = λ s h. refl;
  stringify = json_text;
  parse = json_value;
  parse-stringify = json_value-json_text;
  stringify_clean = json_text_ascii;
}

abbrev file_bytes : Bytes
file_bytes = 1 ∷ 35 ∷ 69 ∷ 103 ∷ 137 ∷ 171 ∷ 77 ∷ 239 ∷ 145 ∷ 2 ∷ 3 ∷ 4 ∷ 5 ∷ 6 ∷ 7 ∷ 8 ∷ []

abbrev pub file_id : Text
file_id = uuid_from_bytes file_bytes

pub file_bytes-AreBytes : AreBytes file_bytes
file_bytes-AreBytes = ground arith

abbrev pub file_id-IsUuid : IsUuid file_id
file_id-IsUuid = record {
  raw = file_bytes;
  bytes = file_bytes-AreBytes;
  sixteen = refl;
  form = refl;
}

on_peer_message-frame_of_example :
    on_peer_message ascii (frame_of ascii (file_chunk file_id 70000 (9 ∷ 8 ∷ [])))
    ≡ some (meant ascii (file_chunk file_id 70000 (9 ∷ 8 ∷ [])))
on_peer_message-frame_of_example =
    on_peer_message-frame_of ascii (file_chunk file_id 70000 (9 ∷ 8 ∷ []))
      (file_id-IsUuid, ground arith)
