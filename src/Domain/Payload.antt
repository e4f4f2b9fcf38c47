-- ===== src/Domain/Payload.antt =====
-- The normalized payload of an event: the value that encoding/json makes of a JSON text.
use Prim.Native.Char.{code}
use Prim.Native.String.{String}
use lexicode.Prelude.{
  ℕ, Bool, true, false, List, [], ◌∷◌, Option, none, some, ◌==◌, ◌&&◌, if◌then◌else◌,
}

-- A text that the code looks into is the list of its code points.
abbrev pub Text : Type 0
Text = List ℕ

abbrev pub codes : String → Text
codes String.[] = []
codes (String.◌∷◌ c s) = code c ∷ codes s

unfoldable pub same_text : Text → Text → Bool
same_text [] [] = true
same_text (a ∷ s) (b ∷ t) = a == b && same_text s t
same_text _ _ = false

-- strings.Split at one character.
unfoldable pub split_at : ℕ → Text → List Text
split_at at [] = [] ∷ []
split_at at (c ∷ s) =
    let rest = split_at at s in
    if c == at then [] ∷ rest else elim rest [ [] ↦ (c ∷ []) ∷ [] | w ∷ ws ↦ (c ∷ w) ∷ ws ]

mutual
  pub data Json : Type 0 where
    null : Json
    bool : Bool → Json
    num : ℕ → Json
    text : Text → Json
    arr : Items → Json
    obj : Fields → Json

  pub data Items : Type 0 where
    nil : Items
    cons : Json → Items → Items

  pub data Fields : Type 0 where
    end : Fields
    field : Text → Json → Fields → Fields

-- The key of a Go map; a key is bound at most once.
unfoldable pub get : Text → Fields → Option Json
unfolding same_text
get k end = none
get k (field j v fs) = if same_text j k then some v else get k fs

-- `lookup` of internal/kernel/guard/layers.go: walk a nested map path.
unfoldable pub walk : List Text → Json → Option Json
unfolding get
walk [] v = some v
walk (k ∷ ks) (obj fs) = elim (get k fs) [ none ↦ none | some v ↦ walk ks v ]
walk (k ∷ ks) _ = none
