-- ===== src/Inbox/Blocked.antt =====
-- The retry of a queue with file references: flushOutboxFor and replayFileSend of `web/app.js`.
use tele.Prelude.{
  ℕ, ◌≡◌, refl, inl, inr, Bool, true, false, not, Option, none, some, List, [], ◌∷◌, ◌++◌, arith,
  if◌then◌else◌, Bool-cases, Option-cases, ◌===◌, drop,
}
use tele.Bytes.{Text, Bytes}
use tele.Storage.{
  sent, FileRow, Store, is_file_ref, file_id_of, mark_status, bump_attempt, get_file,
}
use tele.Storage.Rows.{Row, pending_for}
use tele.Files.{chunk_bytes, send_all}

-- What a retry sends to the peer: an offer with the id, chunks and the end of a file, or a text.
pub data Wired : Type 0 where
  offer : Text → Wired
  chunk : Text → ℕ → Bytes → Wired
  end : Text → Text → Wired
  text : Text → Text → Wired

abbrev pub chunks_of : Text → List (ℕ × Bytes) → List Wired
chunks_of f [] = []
chunks_of f ((i, v) ∷ frames) = chunk f i v ∷ chunks_of f frames

-- replayFileSend of a file with its blob. `up` says whether the socket takes the offer, the chunk of
-- an index and the end.
unfoldable pub replay_blob : Bool → (ℕ → Bool) → Bool → Text → Text → Bytes → List Wired × Bool
unfolding send_all
replay_blob up_offer up_chunk up_end id f blob =
    let (frames, all) = send_all chunk_bytes blob up_chunk in
    let sent = offer f ∷ chunks_of f frames in
    if not up_offer
    then ([], false)
    else if not all
    then (sent, false)
    else if up_end
    then (sent ++ (end f id ∷ []), true)
    else (sent, false)

-- replayFileSend
unfoldable pub replay_file_send : Bool → (ℕ → Bool) → Bool → Text → Text → Store → List Wired × Bool
unfolding file_id_of get_file replay_blob
replay_file_send up_offer up_chunk up_end id body s = elim (file_id_of body) [
  | none ↦ ([], false)
  | some f ↦ if f === [] then ([], false) else elim (get_file f s) [
    | none ↦ ([], false)
    | some row ↦ elim row.blob [
      | none ↦ ([], false)
      | some blob ↦ replay_blob up_offer up_chunk up_end id f blob
    ]
  ]
]

-- One row of flushOutboxFor, with a socket that is up throughout or down.
unfoldable pub resend_row : Bool → Row → Store → List Wired × Bool
unfolding is_file_ref replay_file_send
resend_row up r s =
    if is_file_ref r.1.body
    then replay_file_send up (λ i. up) up r.0 r.1.body s
    else if up
    then (text r.0 r.1.body ∷ [], true)
    else ([], false)

-- What the loop of flushOutboxFor sends, and the storage after it.
unfoldable pub resend_rows : Bool → ℕ → List Row → Store → List Wired × Store
unfolding resend_row mark_status bump_attempt
resend_rows up now [] s = ([], s)
resend_rows up now (r ∷ rows) s =
    let (sent_now, ok) = resend_row up r s in
    let (sent_then, s') = resend_rows up now rows (mark_status r.0 sent s) in
    if ok then (sent_now ++ sent_then, s') else (sent_now, bump_attempt r.0 now s)

-- flushOutboxFor, without the introduction
unfoldable pub resend : Bool → ℕ → Text → Store → List Wired × Store
unfolding resend_rows pending_for
resend up now peer_id s = resend_rows up now (pending_for peer_id s) s

abbrev pub has_blob : Option FileRow → Bool
has_blob none = false
has_blob (some f) = elim f.blob [ none ↦ false | some blob ↦ true ]

pub no_replay :
    (id body f : Text) (s : Store)
    → file_id_of body ≡ some f
    → has_blob (get_file f s) ≡ false
    → replay_file_send true (λ i. true) true id body s ≡ ([], false)
unfolding replay_file_send
no_replay id body f s e h = elim (Bool-cases (f === [])) [
  | inl t ↦ rw (e, replay_file_send, t) refl
  | inr t ↦ elim (Option-cases (get_file f s)) [
    | inl g ↦ rw (e, replay_file_send, t, g) refl
    | inr (row, g) ↦ elim (Option-cases row.blob) [
      | inl b ↦ rw (e, replay_file_send, t, g, b) refl
      | inr (blob, b) ↦ absurd (ground (arith, g, b, h))
    ]
  ]
]

no_resend :
    (now : ℕ) (r : Row) (rows : List Row) (s : Store)
    → is_file_ref r.1.body ≡ true
    → has_blob (get_file (drop 1 r.1.body) s) ≡ false
    → resend_rows true now (r ∷ rows) s ≡ ([], bump_attempt r.0 now s)
unfolding resend_rows resend_row
no_resend now r rows s e h =
    let f : file_id_of r.1.body ≡ some (drop 1 r.1.body) =
      unfold file_id_of in rw (e, file_id_of) refl in
    rw (e, no_replay r.0 r.1.body (drop 1 r.1.body) s f h, resend_rows) refl

-- If the oldest unacknowledged message to a peer begins with `%`, as a typed text may, and no file
-- with a blob is stored for the rest of it, then a retry with the connection up sends nothing to the
-- peer, neither this message nor any later one; it only counts an attempt.
pub queue_blocked :
    (now : ℕ) (peer_id : Text) (r : Row) (rows : List Row) (s : Store)
    → pending_for peer_id s ≡ r ∷ rows
    → is_file_ref r.1.body ≡ true
    → has_blob (get_file (drop 1 r.1.body) s) ≡ false
    → resend true now peer_id s ≡ ([], bump_attempt r.0 now s)
unfolding resend
queue_blocked now peer_id r rows s e f h = rw e (no_resend now r rows s f h)
