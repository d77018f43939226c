-- ===== src/Cedar/Verdict.antt =====
-- From a Cedar response to a verdict: `adjudicated_from_response` of
-- crates/policy/cedar/src/transform.rs. The response and the policy set belong to the
-- `cedar_policy` crate: a response is what its accessors return, in their order, and the policy
-- set is the annotations that it finds under an id.
pub mod Laws
pub mod Metadata
use sondera_coding_agent_hoo.Prelude.{
  Bool, true, false, not, ◌&&◌, ◌||◌, Option, none, some, List, [], ◌∷◌, ◌++◌, if◌then◌else◌,
}
use sondera_coding_agent_hoo.Prelude.Text.{Text, codes, text_eq, is_empty}
use sondera_coding_agent_hoo.Types.Policy.{
  Decision, PolicyMetadata, new_metadata, with_id, with_description, with_escalate, with_key,
}
use sondera_coding_agent_hoo.Types.Control.{Adjudicated, new_adjudicated}

-- `cedar_policy::Decision`.
pub data CedarDecision : Type 0 where
  permitted forbidden : CedarDecision

pub record Response : Type 0 where
  pub decision : CedarDecision
  pub reason : List Text
  pub errors : List Text

abbrev pub Annotations : Type 0
Annotations = List (Text × Text)

abbrev pub PolicySet : Type 0
PolicySet = Text → Option Annotations

-- The loop over the annotations of one policy: its entry, `is_escalate` and `escalate_arg`.
pub record Entry : Type 0 where
  pub entry : PolicyMetadata
  pub is_escalate : Bool
  pub escalate_arg : Option Text

unfoldable pub annotate : Text → Text → Entry → Entry
annotate key value e =
    if text_eq key (codes "id")
    then e
    else if text_eq key (codes "description")
    then record e { entry = with_description value e.entry }
    else if text_eq key (codes "escalate")
    then record e {
      is_escalate = true;
      escalate_arg = if is_empty value then e.escalate_arg else some value;
    }
    else record e { entry = with_key key value e.entry }

unfoldable pub annotate_all : Annotations → Entry → Entry
unfolding annotate
annotate_all [] e = e
annotate_all ((key, value) ∷ rest) e = annotate_all rest (annotate key value e)

unfoldable pub read_policy : PolicySet → Text → Entry
unfolding annotate_all
read_policy policies id =
    let start : Entry = record {
      entry = with_id id new_metadata;
      is_escalate = false;
      escalate_arg = none;
    } in
    elim (policies id) [ none ↦ start | some annotations ↦ annotate_all annotations start ]

-- The variables of the loop over the reasons.
pub record Found : Type 0 where
  pub metadata : List PolicyMetadata
  pub has_hard_deny : Bool
  pub has_escalate : Bool

unfoldable pub is_deny : CedarDecision → Bool
is_deny permitted = false
is_deny forbidden = true

-- One round of the loop, from what the annotations of the policy gave.
unfoldable pub collect : CedarDecision → Entry → Found → Found
unfolding is_deny
collect decision e f =
    if e.is_escalate
    then record f {
      metadata = f.metadata ++ with_escalate e.escalate_arg e.entry ∷ [];
      has_escalate = true;
    }
    else record f {
      metadata = f.metadata ++ e.entry ∷ [];
      has_hard_deny = f.has_hard_deny || is_deny decision;
    }

unfoldable pub collect_all : PolicySet → CedarDecision → List Text → Found → Found
unfolding collect read_policy
collect_all policies decision [] f = f
collect_all policies decision (id ∷ ids) f =
    collect_all policies decision ids (collect decision (read_policy policies id) f)

unfoldable pub decide : CedarDecision → Found → Decision
decide permitted f = Decision.allow
decide forbidden f =
    if f.has_escalate && not f.has_hard_deny then Decision.escalate else Decision.deny

-- `errors.join("; ")`.
unfoldable pub join_errors : List Text → Text
join_errors [] = []
join_errors (e ∷ []) = e
join_errors (e ∷ f ∷ rest) = e ++ (codes "; " ++ join_errors (f ∷ rest))

-- The verdict where evaluation itself failed overrides the decision.
unfoldable pub with_errors : Decision → List Text → Decision × Option Text
unfolding join_errors
with_errors decision [] = (decision, none)
with_errors decision (e ∷ errors) = (Decision.deny, some (join_errors (e ∷ errors)))

unfoldable pub adjudicated_from_response : Response → PolicySet → Adjudicated
unfolding collect_all decide with_errors
adjudicated_from_response response policies =
    let start : Found = record { metadata = []; has_hard_deny = false; has_escalate = false } in
    let found = collect_all policies response.decision response.reason start in
    let (decision, reason) = with_errors (decide response.decision found) response.errors in
    record (new_adjudicated decision) { reason = reason; metadata = found.metadata }
