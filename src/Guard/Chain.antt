-- ===== src/Guard/Chain.antt =====
-- internal/kernel/guard/layers.go: `chainDepth`, layer 4's walk up the causal chain.
pub mod Laws
use lexicode.Prelude.{
  ℕ, zero, suc, ◌+◌, Bool, true, false, not, ◌&&◌, ◌||◌, Option, none, some, Result, ok, err, ◌==◌,
  leb, if◌then◌else◌,
}
use lexicode.Domain.Words.{Key, blank, Time}
use lexicode.Domain.Rows.{Run, Event}
use lexicode.Store.Db.{Db, StoreError, event_by_id}
use lexicode.Store.Runs.{by_id}
use lexicode.Store.Queries.{is_null, newest_human_action_at}

-- The most hops that the walk makes: a cycle in the graph must not hang it.
abbrev pub hop_cap : ℕ
hop_cap = 64

-- A human acted on the subject at or after this hop.
unfoldable pub is_reset : Option Time → Event → Bool
is_reset none cur = false
is_reset (some at) cur = leb cur.occurred_at at

-- The run counts as a hop: no human requested it, and it is on the subject.
unfoldable pub is_hop : (subject : Key) → Run → Bool
is_hop subject run =
    is_null run.requested_by_user_id && (run.subject_key == blank || run.subject_key == subject)

-- The loop of `chainDepth`, with the hops that are left to make.
unfoldable pub climb :
    (hops : ℕ)
    → Db
    → (reset_at : Option Time) (subject : Key) → Event
    → (depth : ℕ) → Result StoreError ℕ
unfolding is_reset is_hop
climb zero db reset_at subject cur depth = ok depth
climb (suc hops) db reset_at subject cur depth = elim (is_reset reset_at cur) [
  | true ↦ ok depth
  | false ↦ elim cur.cause_run_id [
    | none ↦ ok depth
    | some rid ↦ elim (by_id db rid) [
      | err e ↦ err e
      | ok run ↦ elim (is_hop subject run) [
        | false ↦ ok depth
        | true ↦ elim run.cause_event_id [
          | none ↦ ok (suc depth)
          | some eid ↦ elim (event_by_id db eid) [
            | err e ↦ err e
            | ok parent ↦ climb hops db reset_at subject parent (suc depth)
          ]
        ]
      ]
    ]
  ]
]

abbrev pub or_blank : Option Key → Key
or_blank none = blank
or_blank (some x) = x

unfoldable pub reset_of : Db → Event → Result StoreError (Option Time)
reset_of db ev =
    newest_human_action_at db (or_blank ev.project_id) ev.subject_kind ev.subject_number
      ev.subject_id

unfoldable pub chain_depth : Db → Event → (subject : Key) → Result StoreError ℕ
unfolding reset_of
chain_depth db ev subject = elim (reset_of db ev) [
  | err e ↦ err e
  | ok reset_at ↦ climb hop_cap db reset_at subject ev 0
]
