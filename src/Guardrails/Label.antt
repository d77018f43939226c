-- ===== src/Guardrails/Label.antt =====
-- Sensitivity labels: crates/guardrails/ifc/src/label.rs, and the loop of `DataModel::classify` in
-- crates/guardrails/ifc/src/lib.rs. The model's answer to one template is a parameter.
pub mod Laws
use sondera_coding_agent_hoo.Prelude.{
  ℕ, Bool, true, false, not, Option, none, some, List, [], ◌∷◌, ◌++◌, map, ltb, ◌==◌, if◌then◌else◌,
}
use sondera_coding_agent_hoo.Prelude.Text.{Text, codes, text_eq, is_empty}

pub data Label : Type 0 where
  public internal confidential highly_confidential : Label

unfoldable pub display_name : Label → Text
display_name public = codes "Public"
display_name internal = codes "Internal"
display_name confidential = codes "Confidential"
display_name highly_confidential = codes "Highly Confidential"

-- `Label::serde_name`, which `Display` writes too.
unfoldable pub serde_name : Label → Text
serde_name public = codes "Public"
serde_name internal = codes "Internal"
serde_name confidential = codes "Confidential"
serde_name highly_confidential = codes "HighlyConfidential"

-- `Label::from_str`, by the names of the variants.
unfoldable pub label_from_str : Text → Option Label
label_from_str s =
    if text_eq s (codes "Public")
    then some public
    else if text_eq s (codes "Internal")
    then some internal
    else if text_eq s (codes "Confidential")
    then some confidential
    else if text_eq s (codes "HighlyConfidential")
    then some highly_confidential
    else none

unfoldable pub level : Label → ℕ
level public = 0
level internal = 1
level confidential = 2
level highly_confidential = 3

-- The derived equality of labels.
unfoldable pub label_eq : Label → Label → Bool
unfolding level
label_eq a b = level a == level b

pub record LabelCategory : Type 0 where
  pub label : Label
  pub definition : Text

pub record LabelExample : Type 0 where
  pub content : Text
  pub sensitive : Bool
  pub label : Label

pub record LabelTemplate : Type 0 where
  pub name : Text
  pub description : Text
  pub instructions : Text
  pub categories : List LabelCategory
  pub examples : List LabelExample

find_definition : List LabelCategory → Label → Option Text
find_definition [] label = none
find_definition (c ∷ cs) label =
    let later = find_definition cs label in
    if label_eq c.label label then some c.definition else later

unfoldable pub category_definition : LabelTemplate → Label → Option Text
unfolding find_definition label_eq
category_definition t label = find_definition t.categories label

pub record SensitivityModelResult : Type 0 where
  pub sensitive : ℕ
  pub sensitivity_category : Label

pub record SensitivityFinding : Type 0 where
  pub label : Label
  pub description : Text

pub record SensitivityClassification : Type 0 where
  pub is_public : Bool
  pub findings : List SensitivityFinding

-- `filter(|f| f.label == label)`.
filter_label : Label → List SensitivityFinding → List SensitivityFinding
filter_label label [] = []
filter_label label (f ∷ fs) =
    let rest = filter_label label fs in if label_eq f.label label then f ∷ rest else rest

unfoldable pub findings_by_label : SensitivityClassification → Label → List SensitivityFinding
unfolding filter_label label_eq
findings_by_label c label = filter_label label c.findings

-- `max_by_key(level)` from a first element on: of equal keys the last one wins.
max_from : Label → List SensitivityFinding → Label
max_from best [] = best
max_from best (f ∷ fs) = max_from (if ltb (level f.label) (level best) then best else f.label) fs

max_of : List SensitivityFinding → Label
unfolding max_from
max_of [] = public
max_of (f ∷ fs) = max_from f.label fs

unfoldable pub max_label : SensitivityClassification → Label
unfolding max_of
max_label c = max_of c.findings

-- `DataClassificationError` as `classify` returns it: no template, or the provider's error.
pub data Classified : Type 0 where
  classified : SensitivityClassification → Classified
  no_labels : Classified
  provider_failed : Text → Classified

-- The answer of `classify_single`.
pub data Answer : Type 0 where
  answered : SensitivityModelResult → Answer
  failed : Text → Answer

description_for : LabelTemplate → Label → Text
unfolding category_definition
description_for t label = elim (category_definition t label) [
  | none ↦ display_name label
  | some d ↦ d
]

module _ (ask : LabelTemplate → Answer) where
  -- The loop over the templates; the first error ends it.
  classify_from : List LabelTemplate → List SensitivityFinding → Classified
  unfolding description_for
  classify_from [] findings =
      classified
        (record { is_public = elim findings [ [] ↦ true | f ∷ fs ↦ false ]; findings = findings })
  classify_from (t ∷ ts) findings = elim (ask t) [
    | failed e ↦ provider_failed e
    | answered r ↦
        if r.sensitive == 1
        then classify_from ts (
            findings
            ++ record {
              label = r.sensitivity_category;
              description = description_for t r.sensitivity_category;
            }
              ∷ [])
        else classify_from ts findings
  ]

  unfoldable pub classify : List LabelTemplate → Classified
  unfolding classify_from
  classify [] = no_labels
  classify (t ∷ ts) = classify_from (t ∷ ts) []
