-- ===== src/Mailbox/Tests.antt =====
-- Small runs of the mailbox client.
use tele.Prelude.{◌≡◌, refl, true, false, none, some, List, [], ◌∷◌, arith, ◌===◌, codes}
use tele.Bytes.{hex_digit, hex_of}
use tele.Wire.Codes.{mbx_stored}
use tele.Mailbox.{to_call, is_mailbox_frame, route, Checks, fetch_mailbox}
use tele.Mailbox.Drain.{
  fetches, handed, parsed, new_link, served, answer, Event, left, fetched, answers, step, run,
  left_by, answered_times, fetch_drains,
}

abbrev all_well : Checks
all_well = record {
  enabled = true;
  has_mailbox = true;
  connected = true;
  has_keys = true;
  has_xpub = true;
  send_ok = true;
}

-- Two envelopes are left; the send after the first delivery throws; a third one is left, which does
-- not parse.
abbrev broken_off : List Event
broken_off =
    left (some (1 ∷ []))
    ∷ left (some (2 ∷ []))
    ∷ fetched all_well false
    ∷ answers true
    ∷ left none
    ∷ []

fetch_drains_example :
    let d = answered_times 3 (step (fetched all_well false) (run broken_off new_link)) in
    (handed d.page.out ≡ parsed (left_by broken_off)) × (d.queue ≡ []) × (d.page.fetching ≡ false)
fetch_drains_example =
    fetch_drains broken_off all_well 3 refl refl refl
      (unfold run step fetch_mailbox answer served fetches in omega arith)

-- A reply code of the mailbox that comes from another peer is a matter of the call manager.
stranger_to_call : route (codes "0102") (3 ∷ 4 ∷ []) mbx_stored ≡ to_call
unfolding route is_mailbox_frame hex_of hex_digit ◌===◌
stranger_to_call = refl
