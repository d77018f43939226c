-- ===== src/Types/Summary/Verdicts/Laws.antt =====
-- The most severe verdict and the policy hits of a run (crates/types/src/trajectory/summary.rs).
use sondera_coding_agent_hoo.Prelude.{
  ◌≤◌, Option, none, some, List, [], ◌∷◌, Has, ◌≡◌, ◌≢◌, ◌⊎◌, ◌↔◌, inl, inr, refl, sym, subst,
  Bool-cases, ltb, arith,
}
use sondera_coding_agent_hoo.Prelude.Text.{Text}
use sondera_coding_agent_hoo.Prelude.Lists.{IsDistinct}
use sondera_coding_agent_hoo.Types.Policy.{Decision}
use sondera_coding_agent_hoo.Types.Control.{Adjudicated}
use sondera_coding_agent_hoo.Types.Event.{Event}
use sondera_coding_agent_hoo.Types.Summary.Verdicts.{
  decision_severity, verdicts, most_severe, run_decision, adjudication_policy_hit,
}

-- The decision is that of a recorded verdict, and no recorded verdict is more severe.
pub record IsWorst (vs : List Adjudicated) (d : Decision) : Type 0 where
  pub recorded : (a : Adjudicated) × (Has a vs × (a.decision ≡ d))
  pub bound : (a : Adjudicated) → Has a vs → decision_severity a.decision ≤ decision_severity d

-- The result of `most_severe`: none where nothing was recorded, else a worst verdict.
abbrev pub Judged : List Adjudicated → Option Decision → Type 0
Judged vs none = vs ≡ []
Judged vs (some d) = IsWorst vs d

-- What is known of a running maximum.
record Above (seen : Decision) (vs : List Adjudicated) (d : Decision) : Type 0 where
  recorded : (d ≡ seen) ⊎ ((a : Adjudicated) × (Has a vs × (a.decision ≡ d)))
  floor : decision_severity seen ≤ decision_severity d
  bound : (a : Adjudicated) → Has a vs → decision_severity a.decision ≤ decision_severity d

most_severe-Above :
    (seen : Decision) (vs : List Adjudicated)
    → (d : Decision) × ((most_severe (some seen) vs ≡ some d) × Above seen vs d)
unfolding most_severe
most_severe-Above seen [] =
    (seen, (refl, record { recorded = inl refl; floor = omega arith; bound = λ a h. absurd h }))
most_severe-Above seen (v ∷ vs) =
    elim (Bool-cases (ltb (decision_severity v.decision) (decision_severity seen))) [
      | inl e ↦
          let (d, (eq, k)) = most_severe-Above seen vs in
          (
            d,
            (
              rw e eq,
              record {
                recorded = elim k.recorded [
                  | inl f ↦ inl f
                  | inr (a, (m, f)) ↦ inr (a, (inr m, f))
                ];
                floor = k.floor;
                bound =
                    λ a m. elim m [ inl f ↦ ground (arith, e, f, k.floor) | inr n ↦ k.bound a n ];
              },
            ),
          )
      | inr e ↦
          let (d, (eq, k)) = most_severe-Above v.decision vs in
          (
            d,
            (
              rw e eq,
              record {
                recorded = elim k.recorded [
                  | inl f ↦ inr (v, (inl refl, sym f))
                  | inr (a, (m, f)) ↦ inr (a, (inr m, f))
                ];
                floor = ground (arith, e, k.floor);
                bound = λ a m. elim m [ inl f ↦ ground (arith, f, k.floor) | inr n ↦ k.bound a n ];
              },
            ),
          )
    ]

most_severe-Judged : (vs : List Adjudicated) → Judged vs (most_severe none vs)
unfolding most_severe
most_severe-Judged [] = refl
most_severe-Judged (v ∷ vs) =
    let (d, (eq, k)) = most_severe-Above v.decision vs in
    subst (Judged (v ∷ vs)) (sym eq) (record {
      recorded = elim k.recorded [
        | inl f ↦ (v, (inl refl, sym f))
        | inr (a, (m, f)) ↦ (a, (inr m, f))
      ];
      bound = λ a m. elim m [ inl f ↦ ground (arith, f, k.floor) | inr n ↦ k.bound a n ];
    })

-- The decision of a run is there exactly when a verdict is recorded on it; it is then the decision
-- of one of them, and no recorded verdict is more severe.
pub run_decision-Judged : (run : List Event) → Judged (verdicts run) (run_decision run)
unfolding run_decision
run_decision-Judged run = most_severe-Judged (verdicts run)

-- A verdict that fires names the policy: it is not Allow, and the hit is its own.
abbrev pub Fires : Adjudicated → Text → Type 0
Fires a hit = (a.decision ≢ Decision.allow) × (adjudication_policy_hit a ≡ some hit)

-- What one verdict does to the hits so far.
record Counted (a : Adjudicated) (hits hits' : List Text) : Type 0 where
  distinct : IsDistinct hits → IsDistinct hits'
  kept : (h : Text) → Has h hits → Has h hits'
  added : (h : Text) → Fires a h → Has h hits'
  only : (h : Text) → Has h hits' → Has h hits ⊎ Fires a h

-- The hits of a list of verdicts: no doubles, and just the hits of the verdicts that fire.
pub record HitsOf (vs : List Adjudicated) (hits : List Text) : Type 0 where
  pub distinct : IsDistinct hits
  pub exact : (h : Text) → Has h hits ↔ ((a : Adjudicated) × (Has a vs × Fires a h))
