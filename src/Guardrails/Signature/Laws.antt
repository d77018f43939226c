-- ===== src/Guardrails/Signature/Laws.antt =====
-- The severity and the categories of a scan (crates/guardrails/signature/src/lib.rs).
use sondera_coding_agent_hoo.Prelude.{
  ◌≤◌, Option, some, List, [], ◌∷◌, ltb, ◌≡◌, arith, Has, inl, inr, Bool-cases, Option-cases,
}
use sondera_coding_agent_hoo.Prelude.Text.{Text, codes}
use sondera_coding_agent_hoo.Prelude.Sets.{Has-set_insert_self, Has-set_insert}
use sondera_coding_agent_hoo.Types.Json.{get}
use sondera_coding_agent_hoo.Guardrails.Signature.{
  Severity, no_severity, severity_rank, severity_max, Match, from_metadata, match_severity,
  add_category, add_severity, aggregate, scan,
}

severity_max_left : (a b : Severity) → severity_rank a ≤ severity_rank (severity_max a b)
unfolding severity_max
severity_max_left a b = elim (Bool-cases (ltb (severity_rank b) (severity_rank a))) [
  | inl e ↦ rw e (ground arith)
  | inr e ↦ rw e (ground arith)
]

severity_max_right : (a b : Severity) → severity_rank b ≤ severity_rank (severity_max a b)
unfolding severity_max
severity_max_right a b = elim (Bool-cases (ltb (severity_rank b) (severity_rank a))) [
  | inl e ↦ rw e (ground arith)
  | inr e ↦ rw e (ground arith)
]

add_severity_best :
    (m : Match) (best : Severity) → severity_rank best ≤ severity_rank (add_severity m best)
unfolding add_severity
add_severity_best m best = elim (Option-cases (get m.metadata (codes "severity"))) [
  | inl e ↦ rw (e, add_severity) (ground arith)
  | inr (s, e) ↦ rw (e, add_severity) (severity_max_left best (from_metadata s))
]

add_severity_match :
    (m : Match) (best : Severity)
    → severity_rank (match_severity m) ≤ severity_rank (add_severity m best)
unfolding add_severity severity_rank
add_severity_match m best = elim (Option-cases (get m.metadata (codes "severity"))) [
  | inl e ↦ rw (e, add_severity, match_severity) (ground arith)
  | inr (s, e) ↦ rw (e, add_severity, match_severity) (severity_max_right best (from_metadata s))
]

aggregate_best :
    (ms : List Match) (cs : List Text) (best : Severity)
    → severity_rank best ≤ severity_rank (aggregate ms cs best).1
unfolding aggregate
aggregate_best [] cs best = ground arith
aggregate_best (m ∷ ms) cs best =
    ground
      (arith, add_severity_best m best, aggregate_best ms (add_category m cs) (add_severity m best))

aggregate_severity :
    (ms : List Match) (cs : List Text) (best : Severity) (m : Match)
    → Has m ms
    → severity_rank (match_severity m) ≤ severity_rank (aggregate ms cs best).1
unfolding aggregate
aggregate_severity [] cs best m h = elim h [ ]
aggregate_severity (n ∷ ms) cs best m (inl e) = rw e (
    ground (
      arith,
      add_severity_match n best,
      aggregate_best ms (add_category n cs) (add_severity n best),
    ))
aggregate_severity (n ∷ ms) cs best m (inr h) = aggregate_severity ms _ _ m h

aggregate_kept :
    (ms : List Match) (cs : List Text) (best : Severity) (c : Text)
    → Has c cs
    → Has c (aggregate ms cs best).0
unfolding aggregate add_category
aggregate_kept [] cs best c h = h
aggregate_kept (m ∷ ms) cs best c h =
    aggregate_kept ms _ _ c (elim (Option-cases (get m.metadata (codes "category"))) [
      | inl e ↦ rw (e, add_category) h
      | inr (d, e) ↦ rw (e, add_category) (Has-set_insert c d cs h)
    ])

aggregate_category :
    (ms : List Match) (cs : List Text) (best : Severity) (m : Match) (c : Text)
    → Has m ms
    → get m.metadata (codes "category") ≡ some c
    → Has c (aggregate ms cs best).0
unfolding aggregate add_category
aggregate_category [] cs best m c h f = elim h [ ]
aggregate_category (n ∷ ms) cs best m c (inl e) f =
    aggregate_kept ms _ _ c (rw (← e) (rw (f, add_category) (Has-set_insert_self c cs)))
aggregate_category (n ∷ ms) cs best m c (inr h) f = aggregate_category ms _ _ m c h f

-- A scan forgets no match: its severity is at least the severity of each rule that matched, and
-- its categories hold the category of each such rule.
pub scan_bounds :
    (scanner : Text → Option (List Match)) (content : Text) (m : Match)
    → Has m (scan scanner content).matches
    → (severity_rank (match_severity m) ≤ severity_rank (scan scanner content).severity)
      × ((c : Text)
          → get m.metadata (codes "category") ≡ some c
          → Has c (scan scanner content).categories)
unfolding scan
scan_bounds scanner content m h =
    (aggregate_severity _ [] no_severity m h, λ c. aggregate_category _ [] no_severity m c h)
