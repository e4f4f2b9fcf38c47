-- ===== src/Triggers/Conditions.antt =====
-- internal/service/triggers/conditions.go: the condition tree of a rule, against a payload. A number
-- is a natural number: payloads carry counts and identifiers. Go's `path.Match` is an argument, which
-- answers nothing for a malformed pattern.
pub mod Laws
use lexicode.Prelude.{
  ℕ, Bool, true, false, not, ◌&&◌, ◌||◌, List, [], ◌∷◌, Option, none, some, ◌==◌, ltb, leb,
  if◌then◌else◌, any,
}
use lexicode.Domain.Payload.{
  Text, codes, same_text, Json, null, bool, num, text, arr, obj, Items, nil, cons, Fields, get,
  walk,
}
use lexicode.Domain.Payload.{split_at}
use lexicode.Guard.SkipToken.{has_prefix, contains}

-- `operators`, by their names.
pub data Operator : Type 0 where
  text_is text_is_not text_contains text_not_contains text_starts_with : Operator
  text_matches_glob text_is_empty : Operator
  number_eq number_gt number_gte number_lt number_lte : Operator
  enum_is enum_is_not enum_in bool_is : Operator
  set_includes set_excludes set_is_empty : Operator
  actor_is_agent actor_is_human actor_is : Operator

abbrev pub operators : List (Text × Operator)
operators =
    (codes "text.is", text_is)
    ∷ (codes "text.is_not", text_is_not)
    ∷ (codes "text.contains", text_contains)
    ∷ (codes "text.not_contains", text_not_contains)
    ∷ (codes "text.starts_with", text_starts_with)
    ∷ (codes "text.matches_glob", text_matches_glob)
    ∷ (codes "text.is_empty", text_is_empty)
    ∷ (codes "number.eq", number_eq)
    ∷ (codes "number.gt", number_gt)
    ∷ (codes "number.gte", number_gte)
    ∷ (codes "number.lt", number_lt)
    ∷ (codes "number.lte", number_lte)
    ∷ (codes "enum.is", enum_is)
    ∷ (codes "enum.is_not", enum_is_not)
    ∷ (codes "enum.in", enum_in)
    ∷ (codes "bool.is", bool_is)
    ∷ (codes "set.includes", set_includes)
    ∷ (codes "set.excludes", set_excludes)
    ∷ (codes "set.is_empty", set_is_empty)
    ∷ (codes "actor.is_agent", actor_is_agent)
    ∷ (codes "actor.is_human", actor_is_human)
    ∷ (codes "actor.is", actor_is)
    ∷ []

unfoldable pub operator_in : List (Text × Operator) → Text → Option Operator
unfolding same_text
operator_in [] name = none
operator_in ((key, op) ∷ ops) name = if same_text key name then some op else operator_in ops name

-- A node as it is decoded: a list of children that is missing or null is `absent`.
mutual
  pub data CondNode : Type 0 where
    node : (all any : Children) (field op : Text) (value : Option Json) → CondNode

  pub data Children : Type 0 where
    absent : Children
    given : Nodes → Children

  pub data Nodes : Type 0 where
    no_nodes : Nodes
    more_nodes : CondNode → Nodes → Nodes

-- `lookupPath`: nil and the null of JSON are one value in Go.
unfoldable pub lookup_path : Json → Text → Json
unfolding split_at walk
lookup_path payload [] = null
lookup_path payload (c ∷ p) = elim (walk (split_at b'.' (c ∷ p)) payload) [
  | none ↦ null
  | some v ↦ v
]

-- json.Unmarshal into a string, a number and a Boolean: null leaves the zero value.
unfoldable pub want_text : Option Json → Option Text
want_text (some (text s)) = some s
want_text (some null) = some []
want_text _ = none

unfoldable pub want_num : Option Json → Option ℕ
want_num (some (num n)) = some n
want_num (some null) = some 0
want_num _ = none

unfoldable pub want_bool : Option Json → Option Bool
want_bool (some (bool b)) = some b
want_bool (some null) = some false
want_bool _ = none

unfoldable pub item_texts : Items → Option (List Text)
unfolding want_text
item_texts nil = some []
item_texts (cons v vs) = elim (want_text (some v)) [
  | none ↦ none
  | some s ↦ elim (item_texts vs) [ none ↦ none | some ss ↦ some (s ∷ ss) ]
]

unfoldable pub want_texts : Option Json → Option (List Text)
unfolding item_texts
want_texts (some (arr vs)) = item_texts vs
want_texts (some null) = some []
want_texts _ = none

-- `textPair`, followed by a test of the two texts.
unfoldable pub text_pair : (Text → Text → Bool) → Json → Option Json → Bool
unfolding want_text
text_pair test (text s) want = elim (want_text want) [ none ↦ false | some w ↦ test s w ]
text_pair test _ want = false

-- `numberOp`
unfoldable pub number_op : (ℕ → ℕ → Bool) → Json → Option Json → Bool
unfolding want_num
number_op cmp (num a) want = elim (want_num want) [ none ↦ false | some b ↦ cmp a b ]
number_op cmp _ want = false

-- `contains` of conditions.go.
unfoldable pub has_item : Items → Text → Bool
unfolding same_text
has_item nil w = false
has_item (cons (text s) vs) w = same_text s w || has_item vs w
has_item (cons v vs) w = has_item vs w

-- `setPair`, followed by a test of the set and the text.
unfoldable pub set_pair : (Items → Text → Bool) → Json → Option Json → Bool
unfolding want_text
set_pair test (arr vs) want = elim (want_text want) [ none ↦ false | some w ↦ test vs w ]
set_pair test _ want = false

-- `m[k].(string)`, the empty text where that is not a string.
unfoldable pub text_field : Text → Fields → Text
unfolding get
text_field k fs = elim (get k fs) [ some (text s) ↦ s | _ ↦ [] ]

unfoldable pub actor_kind : Json → Text
unfolding text_field
actor_kind (obj fs) = text_field (codes "kind") fs
actor_kind (text s) = s
actor_kind _ = []

abbrev pub is_blank : Text → Bool
is_blank [] = true
is_blank (c ∷ s) = false

unfoldable pub is_actor : Json → Text → Bool
unfolding same_text text_field
is_actor (obj fs) w =
    let agent = text_field (codes "agent") fs in
    let login = text_field (codes "login") fs in
    (not (is_blank agent) && same_text agent w) || (not (is_blank login) && same_text login w)
is_actor (text s) w = same_text s w
is_actor _ w = false

-- `actor.is`
unfoldable pub actor_named : Json → Option Json → Bool
unfolding want_text is_actor
actor_named got want = elim (want_text want) [
  | none ↦ false
  | some w ↦ if is_blank w then false else is_actor got w
]

-- The field of a leaf: `actor` where none is named for an operator on actors.
unfoldable pub leaf_field : (field op : Text) → Text
leaf_field [] op = if has_prefix (codes "actor.") op then codes "actor" else []
leaf_field (c ∷ field) op = c ∷ field

module _ (path_match : Text → Text → Option Bool) where
  -- `globMatch`
  unfoldable pub glob_match : (pattern s : Text) → Bool
  glob_match pattern s = elim (path_match pattern s) [ none ↦ false | some b ↦ b ]

  -- What each operator of the table does.
  unfoldable pub operate : Operator → Json → Option Json → Bool
  unfolding text_pair number_op set_pair actor_kind actor_named want_texts want_bool has_item
      glob_match
  operate text_is got want = text_pair same_text got want
  operate text_is_not got want = text_pair (λ s w. not (same_text s w)) got want
  operate text_contains got want = text_pair (λ s w. contains w s) got want
  operate text_not_contains got want = text_pair (λ s w. not (contains w s)) got want
  operate text_starts_with got want = text_pair (λ s w. has_prefix w s) got want
  operate text_matches_glob got want = text_pair (λ s w. glob_match w s) got want
  operate text_is_empty null want = true
  operate text_is_empty (text s) want = is_blank s
  operate text_is_empty _ want = false
  operate number_eq got want = number_op (λ a b. a == b) got want
  operate number_gt got want = number_op (λ a b. ltb b a) got want
  operate number_gte got want = number_op (λ a b. leb b a) got want
  operate number_lt got want = number_op ltb got want
  operate number_lte got want = number_op leb got want
  operate enum_is got want = text_pair same_text got want
  operate enum_is_not got want = text_pair (λ s w. not (same_text s w)) got want
  operate enum_in (text s) want = elim (want_texts want) [
    | none ↦ false
    | some ws ↦ any (same_text s) ws
  ]
  operate enum_in _ want = false
  operate bool_is (bool true) want = elim (want_bool want) [ some true ↦ true | _ ↦ false ]
  operate bool_is (bool false) want = elim (want_bool want) [ some false ↦ true | _ ↦ false ]
  operate bool_is _ want = false
  operate set_includes got want = set_pair has_item got want
  operate set_excludes got want = set_pair (λ vs w. not (has_item vs w)) got want
  operate set_is_empty (arr nil) want = true
  operate set_is_empty _ want = false
  operate actor_is_agent got want = same_text (actor_kind got) (codes "agent")
  operate actor_is_human got want = same_text (actor_kind got) (codes "human")
  operate actor_is got want = actor_named got want

  -- `evalLeaf`
  unfoldable pub eval_leaf : Json → (field op : Text) → Option Json → Bool
  unfolding operator_in lookup_path
  eval_leaf payload field op value = elim (operator_in operators op) [
    | none ↦ false
    | some o ↦ operate o (lookup_path payload (leaf_field field op)) value
  ]

  -- `evalNode`
  unfoldable mutual
    pub eval_node : Json → CondNode → Bool
    eval_node payload (node (given ns) any_ field op value) = eval_all payload ns
    eval_node payload (node absent (given ns) field op value) = eval_any payload ns
    eval_node payload (node absent absent field op value) = eval_leaf payload field op value

    pub eval_all : Json → Nodes → Bool
    eval_all payload no_nodes = true
    eval_all payload (more_nodes n ns) = eval_node payload n && eval_all payload ns

    pub eval_any : Json → Nodes → Bool
    eval_any payload no_nodes = false
    eval_any payload (more_nodes n ns) = eval_node payload n || eval_any payload ns

-- A stored condition tree: no text, a text that does not decode, or a tree.
pub data StoredTree : Type 0 where
  no_tree bad_tree : StoredTree
  tree : CondNode → StoredTree

-- `evalConditions`
unfoldable pub eval_conditions : (Text → Text → Option Bool) → StoredTree → Json → Bool
unfolding eval_node
eval_conditions path_match no_tree payload = true
eval_conditions path_match bad_tree payload = false
eval_conditions path_match (tree n) payload = eval_node path_match payload n
