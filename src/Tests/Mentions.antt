-- ===== src/Tests/Mentions.antt =====
-- The theorems on mentions at a short body.
use lexicode.Prelude.{◌≡◌, ◌↔◌, [], ◌++◌, some, true, refl}
use lexicode.Domain.Payload.{codes, same_text}
use lexicode.Mentions.{
  wiki, Mention, mention_at, token, pieces, mask_tokens, parse_mentions, after_prefix, run_of,
  target_at, kind_at, id_at, rewrite_wiki_labels,
}
use lexicode.Mentions.Tokens.{IsToken, token-mention_at}

abbrev runbook : Mention
runbook = record { label = codes "API runbook"; kind = wiki; id = codes "01H" }

token-mention_at_example :
    (mention_at (token runbook ++ codes " says") ≡ some (runbook, codes " says")) ↔ IsToken runbook
token-mention_at_example = token-mention_at runbook (codes " says")

masks : mask_tokens (codes "see @[x](wiki:1).") ≡ codes "see             ."
unfolding mask_tokens pieces mention_at after_prefix run_of target_at kind_at id_at
masks = refl

-- A title with a bracket: after the renaming the body mentions no page.
loses :
    parse_mentions (rewrite_wiki_labels (codes "1") (codes "x [v2]") (codes "see @[x](wiki:1)")).0
    ≡ []
unfolding parse_mentions rewrite_wiki_labels pieces mention_at same_text after_prefix run_of
    target_at kind_at id_at
loses = refl

keeps :
    rewrite_wiki_labels (codes "1") (codes "y") (codes "see @[x](wiki:1)")
    ≡ (codes "see @[y](wiki:1)", true)
unfolding rewrite_wiki_labels pieces mention_at same_text after_prefix run_of target_at kind_at
    id_at
keeps = refl
