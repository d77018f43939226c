-- ===== src/Guardrails/Label/Laws.antt =====
-- The highest label of a classification (crates/guardrails/ifc/src/label.rs).
use sondera_coding_agent_hoo.Prelude.{
  ◌≤◌, true, false, some, List, [], ◌∷◌, ltb, ◌≡◌, refl, arith, Has, ◌⊎◌, inl, inr, Bool-cases,
}
use sondera_coding_agent_hoo.Guardrails.Label.{
  Label, public, internal, confidential, highly_confidential, serde_name, label_from_str, level,
  SensitivityFinding, SensitivityClassification, max_from, max_of, max_label,
}
use sondera_coding_agent_hoo.Prelude.Text.{text_eq}

-- The name of a label reads back as that label.
pub label_from_str-serde_name : (l : Label) → label_from_str (serde_name l) ≡ some l
unfolding label_from_str serde_name text_eq
label_from_str-serde_name public = refl
label_from_str-serde_name internal = refl
label_from_str-serde_name confidential = refl
label_from_str-serde_name highly_confidential = refl

pub level_injective : (a b : Label) → level a ≡ level b → a ≡ b
unfolding level
level_injective public public e = refl
level_injective public internal e = ground arith
level_injective public confidential e = ground arith
level_injective public highly_confidential e = ground arith
level_injective internal public e = ground arith
level_injective internal internal e = refl
level_injective internal confidential e = ground arith
level_injective internal highly_confidential e = ground arith
level_injective confidential public e = ground arith
level_injective confidential internal e = ground arith
level_injective confidential confidential e = refl
level_injective confidential highly_confidential e = ground arith
level_injective highly_confidential public e = ground arith
level_injective highly_confidential internal e = ground arith
level_injective highly_confidential confidential e = ground arith
level_injective highly_confidential highly_confidential e = refl

-- `m` is at least as high as each label of the list, and is one of `best` and these labels.
record IsMax (best : Label) (fs : List SensitivityFinding) (m : Label) : Type 0 where
  at_best : level best ≤ level m
  above : (f : SensitivityFinding) → Has f fs → level f.label ≤ level m
  chosen : (m ≡ best) ⊎ ((f : SensitivityFinding) × (Has f fs × (m ≡ f.label)))

max_from-IsMax : (best : Label) (fs : List SensitivityFinding) → IsMax best fs (max_from best fs)
unfolding max_from
max_from-IsMax best [] = record {
  at_best = ground arith;
  above = λ f h. absurd h;
  chosen = inl refl;
}
max_from-IsMax best (g ∷ fs) = elim (Bool-cases (ltb (level g.label) (level best))) [
  | inl e ↦ rw e (
      let h = max_from-IsMax best fs in
      record {
        at_best = h.at_best;
        above = λ f. elim [ inl k ↦ rw k (low _ g h.at_best e) | inr k ↦ h.above f k ];
        chosen = later _ (h.chosen);
      })
  | inr e ↦ rw e (
      let h = max_from-IsMax g.label fs in
      record {
        at_best = high _ h.at_best e;
        above = λ f. elim [ inl k ↦ rw k h.at_best | inr k ↦ h.above f k ];
        chosen = newer _ (h.chosen);
      })
]
  where
    low :
        (m : Label) (f : SensitivityFinding)
        → level best ≤ level m
        → ltb (level f.label) (level best) ≡ true
        → level f.label ≤ level m
    low m f h e = ground arith

    high :
        (m : Label)
        → level g.label ≤ level m
        → ltb (level g.label) (level best) ≡ false
        → level best ≤ level m
    high m h e = ground arith

    later :
        (m : Label)
        → (m ≡ best) ⊎ ((f : SensitivityFinding) × (Has f fs × (m ≡ f.label)))
        → (m ≡ best) ⊎ ((f : SensitivityFinding) × (Has f (g ∷ fs) × (m ≡ f.label)))
    later m (inl h) = inl h
    later m (inr (f, (h, k))) = inr (f, (inr h, k))

    newer :
        (m : Label)
        → (m ≡ g.label) ⊎ ((f : SensitivityFinding) × (Has f fs × (m ≡ f.label)))
        → (m ≡ best) ⊎ ((f : SensitivityFinding) × (Has f (g ∷ fs) × (m ≡ f.label)))
    newer m (inl h) = inr (g, (inl refl, h))
    newer m (inr (f, (h, k))) = inr (f, (inr h, k))

from_first :
    (g : SensitivityFinding) (fs : List SensitivityFinding) (m : Label)
    → (m ≡ g.label) ⊎ ((f : SensitivityFinding) × (Has f fs × (m ≡ f.label)))
    → (((g ∷ fs ≡ []) × (m ≡ public))
        ⊎ ((f : SensitivityFinding) × (Has f (g ∷ fs) × (m ≡ f.label))))
from_first g fs m (inl h) = inr (g, (inl refl, h))
from_first g fs m (inr (f, (h, k))) = inr (f, (inr h, k))

-- The highest label of a classification is at least as high as the label of each finding, and it
-- is the label of a finding, or Public where there is none.
pub max_label-IsMax :
    (c : SensitivityClassification)
    → ((f : SensitivityFinding) → Has f c.findings → level f.label ≤ level (max_label c))
      × (((c.findings ≡ []) × (max_label c ≡ public))
          ⊎ ((f : SensitivityFinding) × (Has f c.findings × (max_label c ≡ f.label))))
unfolding max_label
max_label-IsMax c = max_of_lem c.findings
  where
    max_of_lem :
        (fs : List SensitivityFinding)
        → ((f : SensitivityFinding) → Has f fs → level f.label ≤ level (max_of fs))
          × (((fs ≡ []) × (max_of fs ≡ public))
              ⊎ ((f : SensitivityFinding) × (Has f fs × (max_of fs ≡ f.label))))
    max_of_lem [] = ((λ f h. absurd h), inl (refl, refl))
    max_of_lem (g ∷ fs) =
        let h = max_from-IsMax g.label fs in
        ((λ f. elim [ inl k ↦ rw k h.at_best | inr k ↦ h.above f k ]), from_first g fs _ h.chosen)
