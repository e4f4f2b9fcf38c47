-- ===== src/Tests/Triggers.antt =====
-- The theorems on rules at small payloads.
use lexicode.Prelude.{◌≡◌, refl, Bool, true, [], ◌∷◌, Option, some}
use lexicode.Domain.Payload.{Text, null, text, codes, same_text}
use lexicode.Domain.Rows.{Event}
use lexicode.Triggers.Conditions.{CondNode, node, absent, Nodes, no_nodes, more_nodes}
use lexicode.Triggers.Match.{
  Filters, TriggerWhen, trigger_subject, nothing, value, path_candidates, match_stage,
}
use lexicode.Domain.Payload.{Json, obj, field, end}
use lexicode.Triggers.Template.{cut_pair, interpolate}
use lexicode.Triggers.Conditions.{lookup_path}
use lexicode.Tests.Sample.{event_11}

-- A pattern matcher that takes patterns literally.
abbrev literally : Text → Text → Option Bool
literally pattern s = some (same_text pattern s)

abbrev branch_is_main : CondNode
branch_is_main =
    node absent absent (codes "pr.branch") (codes "text.is") (some (text (codes "main")))

abbrev one_node : Nodes
one_node = more_nodes branch_is_main no_nodes

abbrev tick : Event
tick = record event_11 { subject_kind = trigger_subject; subject_id = some 5 }

abbrev on_tick : TriggerWhen
on_tick = record { id = 5; event = 2; activity_types = value (3 ∷ []); filters = nothing }

ticks : match_stage literally on_tick tick null ≡ true
unfolding match_stage
ticks = refl

abbrev on_docs : Filters
on_docs = record { branches = []; paths = codes "docs/a.md" ∷ []; labels = [] }

no_paths : path_candidates null ≡ []
unfolding path_candidates
no_paths = refl

-- A payload with one path, and a value that is written out as nothing.
abbrev branch_payload : Json
branch_payload =
    obj (field (codes "pr") (obj (field (codes "branch") (text (codes "main")) end)) end)

abbrev unwritten : Json → Text
unwritten v = []

branch_interpolates :
    interpolate unwritten branch_payload (codes "on {{ pr.branch }}!") ≡ (codes "on main!", [])
unfolding interpolate cut_pair lookup_path
branch_interpolates = refl
