-- ===== src/Mentions.antt =====
-- internal/service/mentionparse/mentionparse.go: the tokens of mentions in a text. A text is the list of
-- its characters. The pattern `@\[([^\]\n]+)\]\((user|agent|wiki|ticket):([A-Za-z0-9]+)\)` is read from left
-- to right: after a run of label or id characters comes one that is none, so no other reading matches.
pub mod Tokens
pub mod Labels
use lexicode.Prelude.{
  ℕ, zero, suc, ◌+◌, Bool, true, false, not, ◌&&◌, ◌||◌, List, [], ◌∷◌, ◌++◌, Option, none, some,
  ◌==◌, leb, if◌then◌else◌, length, any,
}
use lexicode.Domain.Payload.{Text, codes, same_text}

pub data Kind : Type 0 where
  user agent wiki ticket : Kind

abbrev pub is_wiki : Kind → Bool
is_wiki wiki = true
is_wiki _ = false

abbrev pub kind_text : Kind → Text
kind_text user = codes "user:"
kind_text agent = codes "agent:"
kind_text wiki = codes "wiki:"
kind_text ticket = codes "ticket:"

-- `Parsed`, without its paragraph.
pub record Mention : Type 0 where
  pub label : Text
  pub kind : Kind
  pub id : Text

abbrev pub is_label : ℕ → Bool
is_label c = not (c == b']' || c == 10)

abbrev pub is_id : ℕ → Bool
is_id c = (leb b'A' c && leb c b'Z') || (leb b'a' c && leb c b'z') || (leb b'0' c && leb c b'9')

-- The longest run of such characters, and what follows it.
unfoldable pub span : (ℕ → Bool) → Text → Text × Text
span p [] = ([], [])
span p (c ∷ cs) = let (run, rest) = span p cs in if p c then (c ∷ run, rest) else ([], c ∷ cs)

unfoldable pub after_prefix : Text → Text → Option Text
after_prefix [] s = some s
after_prefix (c ∷ cs) [] = none
after_prefix (c ∷ cs) (d ∷ s) = let rest = after_prefix cs s in if c == d then rest else none

-- The kind that a text starts with, and what follows its colon.
unfoldable pub kind_at : Text → Option (Kind × Text)
unfolding after_prefix
kind_at s = elim (after_prefix (kind_text user) s) [
  | some rest ↦ some (user, rest)
  | none ↦ elim (after_prefix (kind_text agent) s) [
    | some rest ↦ some (agent, rest)
    | none ↦ elim (after_prefix (kind_text wiki) s) [
      | some rest ↦ some (wiki, rest)
      | none ↦ elim (after_prefix (kind_text ticket) s) [
        | some rest ↦ some (ticket, rest)
        | none ↦ none
      ]
    ]
  ]
]

-- `+` in the pattern: the run is not empty.
unfoldable pub not_empty : Text × Text → Option (Text × Text)
not_empty ([], rest) = none
not_empty (c ∷ cs, rest) = some (c ∷ cs, rest)

unfoldable pub run_of : (ℕ → Bool) → Text → Option (Text × Text)
unfolding span not_empty
run_of p s = not_empty (span p s)

unfoldable pub id_at : (label : Text) → Kind × Text → Option (Mention × Text)
id_at label (kind, s) = elim (run_of is_id s) [
  | none ↦ none
  | some (id, rest) ↦ elim (after_prefix (codes ")") rest) [
    | none ↦ none
    | some after ↦ some (record { label = label; kind = kind; id = id }, after)
  ]
]

unfoldable pub target_at : Text × Text → Option (Mention × Text)
target_at (label, s) = elim (after_prefix (codes "](") s) [
  | none ↦ none
  | some s' ↦ elim (kind_at s') [ none ↦ none | some k ↦ id_at label k ]
]

-- The mention that a text starts with, and what follows it.
unfoldable pub mention_at : Text → Option (Mention × Text)
mention_at s = elim (after_prefix (codes "@[") s) [
  | none ↦ none
  | some s' ↦ elim (run_of is_label s') [ none ↦ none | some l ↦ target_at l ]
]

-- The wire format of a mention.
unfoldable pub token : Mention → Text
token m = codes "@[" ++ (m.label ++ (codes "](" ++ (kind_text m.kind ++ (m.id ++ codes ")"))))

-- A text between mentions, or a mention.
pub data Piece : Type 0 where
  plain : ℕ → Piece
  mention : Mention → Piece

-- `FindAll` from left to right: a match is skipped whole.
unfoldable pub pieces_of : (fuel : ℕ) → Text → List Piece
pieces_of zero s = []
pieces_of (suc f) [] = []
pieces_of (suc f) (c ∷ cs) = elim (mention_at (c ∷ cs)) [
  | none ↦ plain c ∷ pieces_of f cs
  | some (m, rest) ↦ mention m ∷ pieces_of f rest
]

-- Each piece is a character at least.
unfoldable pub pieces : Text → List Piece
unfolding pieces_of
pieces s = pieces_of (length s) s

unfoldable pub mentions_in : List Piece → List Mention
mentions_in [] = []
mentions_in (plain c ∷ ps) = mentions_in ps
mentions_in (mention m ∷ ps) = m ∷ mentions_in ps

-- `Parse`
unfoldable pub parse_mentions : Text → List Mention
unfolding pieces mentions_in
parse_mentions s = mentions_in (pieces s)

unfoldable pub text_of : List Piece → Text
unfolding token
text_of [] = []
text_of (plain c ∷ ps) = c ∷ text_of ps
text_of (mention m ∷ ps) = token m ++ text_of ps

-- `RewriteWikiLabels`: what becomes of a mention.
unfoldable pub relabel : (page label : Text) → Piece → Piece
relabel page label (plain c) = plain c
relabel page label (mention m) =
    if is_wiki m.kind && same_text m.id page
    then mention (record m { label = label })
    else mention m

unfoldable pub relabel_all : (page label : Text) → List Piece → List Piece
unfolding relabel
relabel_all page label [] = []
relabel_all page label (p ∷ ps) = relabel page label p ∷ relabel_all page label ps

-- A mention of the page with another label.
unfoldable pub is_stale : (page label : Text) → Piece → Bool
is_stale page label (plain c) = false
is_stale page label (mention m) =
    is_wiki m.kind && same_text m.id page && not (same_text m.label label)

-- The new body, and whether anything changed.
unfoldable pub rewrite_wiki_labels : (page label : Text) → Text → Text × Bool
unfolding pieces relabel_all text_of any is_stale
rewrite_wiki_labels page label s =
    (text_of (relabel_all page label (pieces s)), any (is_stale page label) (pieces s))

abbrev pub blanked : ℕ → ℕ
blanked c = if c == 10 then c else 32

unfoldable pub blank_text : Text → Text
blank_text [] = []
blank_text (c ∷ cs) = blanked c ∷ blank_text cs

-- `MaskTokens`
unfoldable pub mask : List Piece → Text
unfolding token blank_text
mask [] = []
mask (plain c ∷ ps) = c ∷ mask ps
mask (mention m ∷ ps) = blank_text (token m) ++ mask ps

unfoldable pub mask_tokens : Text → Text
unfolding pieces mask
mask_tokens s = mask (pieces s)
