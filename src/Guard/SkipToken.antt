-- ===== src/Guard/SkipToken.antt =====
-- internal/kernel/guard/layers.go: the escape hatch, `hasSkipToken`, and the review of an event.
pub mod Laws
use lexicode.Prelude.{
  ℕ, ◌+◌, Bool, true, false, ◌&&◌, ◌||◌, List, [], ◌∷◌, Option, none, some, ◌==◌, leb,
  if◌then◌else◌, any,
}
use lexicode.Domain.Payload.{Text, Json, text, walk, codes}
use lexicode.Store.Queries.{review_id_path, comment_review_path}

-- `unicode.ToLower` as far as it matters: the code points that it takes into ASCII. Others keep away
-- from ASCII, where the tokens are.
unfoldable pub to_lower : ℕ → ℕ
to_lower c =
    if leb b'A' c && leb c b'Z'
    then c + 32
    else if c == 0x130
    then b'i'
    else if c == 0x212a
    then b'k'
    else c

unfoldable pub lower : Text → Text
unfolding to_lower
lower [] = []
lower (c ∷ s) = to_lower c ∷ lower s

unfoldable pub has_prefix : Text → Text → Bool
has_prefix [] s = true
has_prefix (t ∷ tok) [] = false
has_prefix (t ∷ tok) (c ∷ s) = t == c && has_prefix tok s

-- `strings.Contains`
unfoldable pub contains : Text → Text → Bool
unfolding has_prefix
contains tok [] = has_prefix tok []
contains tok (c ∷ s) = has_prefix tok (c ∷ s) || contains tok s

abbrev pub skip_tokens : List Text
skip_tokens = codes "skip-agents" ∷ codes "skip-agent" ∷ codes "[skip agents]" ∷ []

abbrev pub skip_paths : List (List Text)
skip_paths =
    (codes "pr" ∷ codes "body" ∷ [])
    ∷ (codes "comment" ∷ codes "body" ∷ [])
    ∷ (codes "review" ∷ codes "body" ∷ [])
    ∷ (codes "pr" ∷ codes "head_commit_message" ∷ [])
    ∷ []

-- A text that holds one of the tokens, in any case of letters.
unfoldable pub holds_token : Text → Bool
unfolding contains lower any
holds_token s = any (λ tok. contains tok (lower s)) skip_tokens

unfoldable pub token_at : Json → List Text → Bool
unfolding walk holds_token
token_at payload path = elim (walk path payload) [ some (text s) ↦ holds_token s | _ ↦ false ]

unfoldable pub has_skip_token : Json → Bool
unfolding token_at any
has_skip_token payload = any (token_at payload) skip_paths

-- White space of `strings.TrimSpace`.
unfoldable pub is_space : ℕ → Bool
is_space c =
    c == 0x20
    || (leb 0x09 c && leb c 0x0d)
    || c == 0x85
    || c == 0xa0
    || c == 0x1680
    || (leb 0x2000 c && leb c 0x200a)
    || c == 0x2028
    || c == 0x2029
    || c == 0x202f
    || c == 0x205f
    || c == 0x3000

-- `strings.TrimSpace(s) != ""`
unfoldable pub is_inked : Text → Bool
unfolding is_space
is_inked [] = false
is_inked (c ∷ s) = if is_space c then is_inked s else true

unfoldable pub inked_at : Json → List Text → Option Text
unfolding walk is_inked
inked_at payload path = elim (walk path payload) [
  | some (text s) ↦ if is_inked s then some s else none
  | _ ↦ none
]

-- `reviewIDOf`; the empty text is `none`.
unfoldable pub review_id_of : Json → Option Text
unfolding inked_at
review_id_of payload = elim (inked_at payload review_id_path) [
  | some s ↦ some s
  | none ↦ inked_at payload comment_review_path
]
