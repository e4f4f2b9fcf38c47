-- ===== src/Triggers/Conditions/Laws.antt =====
-- What the condition trees of internal/service/triggers/conditions.go say.
use lexicode.Prelude.{◌≡◌, ◌↔◌, Bool, true, false, Option, some, ◌⊎◌, not, arith}
use lexicode.Domain.Payload.{Text, Json, null, text}
use lexicode.Triggers.Conditions.{
  Operator, text_is, text_is_not, text_is_empty, CondNode, Nodes, no_nodes, more_nodes, want_text,
  text_pair, operate, eval_node,
}

-- A value that the payload does not carry satisfies text.is_empty, and no other operator.
pub operate-null :
    (path_match : Text → Text → Option Bool) (op : Operator) (want : Option Json)
    → (operate path_match op null want ≡ true) ↔ (op ≡ text_is_empty)
unfolding operate
operate-null path_match op want = ground arith

-- On a text, with a text or null to compare with, text.is_not is the opposite of text.is. Otherwise
-- both are false.
pub text_is_not-text_is :
    (path_match : Text → Text → Option Bool) (got : Json) (want : Option Json)
    → ((s w : Text) × (got ≡ text s)
        × (want_text want ≡ some w)
        × (operate path_match text_is_not got want ≡ not (operate path_match text_is got want)))
      ⊎ ((operate path_match text_is got want ≡ false)
          × (operate path_match text_is_not got want ≡ false))
unfolding operate text_pair
text_is_not-text_is path_match got want = ground arith

-- Every node of a list, or some node of it, has a property.
pub data Every (P : CondNode → Type 0) : Nodes → Type 0 where
  none_left : Every P no_nodes
  and_then : {n : CondNode} {ns : Nodes} → P n → Every P ns → Every P (more_nodes n ns)

pub data Some (P : CondNode → Type 0) : Nodes → Type 0 where
  this : {n : CondNode} {ns : Nodes} → P n → Some P (more_nodes n ns)
  later : {n : CondNode} {ns : Nodes} → Some P ns → Some P (more_nodes n ns)

module _ (path_match : Text → Text → Option Bool) (payload : Json) where
  abbrev Holds : CondNode → Type 0
  Holds n = eval_node path_match payload n ≡ true
