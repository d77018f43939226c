-- ===== src/Guardrails/Signature.antt =====
-- Signature matches: crates/guardrails/signature/src/lib.rs. The YARA scanner is a parameter: the
-- matches that it reports for a content, or `none` where it fails.
pub mod Laws
use sondera_coding_agent_hoo.Prelude.{
  ℕ, Bool, true, false, Option, none, some, List, [], ◌∷◌, ltb, if◌then◌else◌, length,
}
use sondera_coding_agent_hoo.Prelude.Text.{Text, codes, text_eq}
use sondera_coding_agent_hoo.Prelude.Sets.{set_insert}
use sondera_coding_agent_hoo.Types.Json.{HashMap, get}

-- `Severity`, whose `None` is `no_severity` here.
pub data Severity : Type 0 where
  no_severity low medium high critical : Severity

unfoldable pub from_metadata : Text → Severity
from_metadata s =
    if text_eq s (codes "low")
    then low
    else if text_eq s (codes "medium")
    then medium
    else if text_eq s (codes "high")
    then high
    else if text_eq s (codes "critical")
    then critical
    else no_severity

-- `i64::from(severity)`, which is also the derived order.
unfoldable pub severity_rank : Severity → ℕ
severity_rank no_severity = 0
severity_rank low = 1
severity_rank medium = 2
severity_rank high = 3
severity_rank critical = 4

-- `a.max(b)` by the derived order.
unfoldable pub severity_max : Severity → Severity → Severity
unfolding severity_rank
severity_max a b = if ltb (severity_rank b) (severity_rank a) then a else b

pub record Match : Type 0 where
  pub identifier : Text
  pub namespace : Text
  pub metadata : HashMap Text

-- `categories` is a `HashSet`, whose order nothing reads.
pub record SignatureContext : Type 0 where
  pub matches : List Match
  pub categories : List Text
  pub severity : Severity

abbrev pub match_severity : Match → Severity
match_severity m = elim (get m.metadata (codes "severity")) [
  | none ↦ no_severity
  | some s ↦ from_metadata s
]

add_category : Match → List Text → List Text
add_category m categories = elim (get m.metadata (codes "category")) [
  | none ↦ categories
  | some c ↦ set_insert c categories
]

add_severity : Match → Severity → Severity
add_severity m best = elim (get m.metadata (codes "severity")) [
  | none ↦ best
  | some s ↦ severity_max best (from_metadata s)
]

-- The loop over the matches.
unfoldable pub aggregate : List Match → List Text → Severity → List Text × Severity
unfolding add_category add_severity
aggregate [] categories best = (categories, best)
aggregate (m ∷ ms) categories best = aggregate ms (add_category m categories) (add_severity m best)

unfoldable pub scan : (Text → Option (List Match)) → Text → SignatureContext
unfolding aggregate
scan scanner content =
    let matches : List Match = elim (scanner content) [ none ↦ [] | some found ↦ found ] in
    let (categories, best) = aggregate matches [] no_severity in
    record { matches = matches; categories = categories; severity = best }
