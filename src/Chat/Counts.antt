-- ===== src/Chat/Counts.antt =====
-- The counters of unread messages and missed calls in `web/app.js`.
use tele.Prelude.{ℕ, ◌+◌, ◌≡◌, refl, ap, ◌∙◌, List, [], ◌∷◌, arith, if◌then◌else◌, ◌===◌, ===_iff}
use tele.Bytes.{Text}
use tele.Table.{lookup-put, lookup-delete}
use tele.Chat.{Counters, count, bump, clear}

-- A message that is not shown, or a chat that is opened.
pub data Event : Type 0 where
  arrived opened : Text → Event

unfoldable pub run : List Event → Counters → Counters
run [] t = t
run (arrived id ∷ es) t = run es (bump id t)
run (opened id ∷ es) t = run es (clear id t)

-- How many messages of one contact arrived since the chat was last opened, or n more if it was not.
unfoldable pub tally : Text → List Event → ℕ → ℕ
tally k [] n = n
tally k (arrived id ∷ es) n = tally k es (if id === k then n + 1 else n)
tally k (opened id ∷ es) n = tally k es (if id === k then 0 else n)

pub count-bump :
    (id k : Text) (t : Counters)
    → count k (bump id t) ≡ (if id === k then count k t + 1 else count k t)
unfolding count bump
count-bump id k t = grind (arith, lookup-put id k (count id t + 1) t, ===_iff id k)

count-clear :
    (id k : Text) (t : Counters) → count k (clear id t) ≡ (if id === k then 0 else count k t)
unfolding count clear
count-clear id k t = grind (arith, lookup-delete id k t, ===_iff id k)

-- The badge of each contact shows the number of messages that arrived since its chat was last opened,
-- whatever happens with the other contacts.
pub badge_is_tally :
    (k : Text) (es : List Event) (t : Counters) → count k (run es t) ≡ tally k es (count k t)
unfolding run tally
badge_is_tally k [] t = refl
badge_is_tally k (arrived id ∷ es) t =
    badge_is_tally k es (bump id t) ∙ ap (tally k es) (count-bump id k t)
badge_is_tally k (opened id ∷ es) t =
    badge_is_tally k es (clear id t) ∙ ap (tally k es) (count-clear id k t)
