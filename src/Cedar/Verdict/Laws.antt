-- ===== src/Cedar/Verdict/Laws.antt =====
-- When a Cedar response becomes which verdict (crates/policy/cedar/src/transform.rs).
use sondera_coding_agent_hoo.Prelude.{
  Bool, true, false, not, ◌&&◌, ◌||◌, none, some, List, [], ◌∷◌, if◌then◌else◌, ◌≡◌, inl, inr, refl,
  ◌∙◌, ap, arith, Bool-cases, Option-cases, all, any,
}
use sondera_coding_agent_hoo.Prelude.Text.{Text, codes, text_eq, is_empty, text_eq→eq}
use sondera_coding_agent_hoo.Types.Policy.{Decision, PolicyMetadata, with_key}
use sondera_coding_agent_hoo.Types.Control.{new_adjudicated}
use sondera_coding_agent_hoo.Cedar.Verdict.{
  CedarDecision, permitted, forbidden, Response, Annotations, PolicySet, Entry, annotate,
  annotate_all, read_policy, Found, is_deny, collect, collect_all, decide, with_errors,
  adjudicated_from_response,
}

-- An annotation `@escalate` stands on the policy.
abbrev pub has_escalate_key : Annotations → Bool
has_escalate_key [] = false
has_escalate_key ((key, value) ∷ rest) = text_eq key (codes "escalate") || has_escalate_key rest

abbrev pub escalates : PolicySet → Text → Bool
escalates policies id = elim (policies id) [
  | none ↦ false
  | some annotations ↦ has_escalate_key annotations
]

if_is_escalate :
    (b : Bool) (e f : Entry)
    → (if b then e else f).is_escalate ≡ (if b then e.is_escalate else f.is_escalate)
if_is_escalate true e f = refl
if_is_escalate false e f = refl

not_escalate :
    (key other : Text)
    → text_eq key other ≡ true
    → text_eq other (codes "escalate") ≡ false
    → text_eq key (codes "escalate") ≡ false
not_escalate key other e f = rw (text_eq→eq key other e) f

annotate-is_escalate :
    (key value : Text) (e : Entry)
    → (annotate key value e).is_escalate ≡ e.is_escalate || text_eq key (codes "escalate")
unfolding annotate text_eq
annotate-is_escalate key value e = elim (Bool-cases (text_eq key (codes "id"))) [
  | inl h ↦ rw h (rw (not_escalate key (codes "id") h refl) (or_false e.is_escalate))
  | inr h ↦ rw h (elim (Bool-cases (text_eq key (codes "description"))) [
    | inl k ↦ rw k (rw (not_escalate key (codes "description") k refl) (or_false e.is_escalate))
    | inr k ↦ rw k (escalate_step (text_eq key (codes "escalate")))
  ])
]
  where
    or_false : (b : Bool) → b ≡ b || false
    or_false b = ground arith

    escalate_step :
        (b : Bool)
        → (if b
            then record e {
              is_escalate = true;
              escalate_arg = if is_empty value then e.escalate_arg else some value;
            }
            else record e { entry = with_key key value e.entry }).is_escalate
          ≡ e.is_escalate || b
    escalate_step true = ground arith
    escalate_step false = ground arith

or_assoc : (a b c : Bool) → (a || b) || c ≡ a || (b || c)
or_assoc a b c = ground arith

annotate_all-is_escalate :
    (a : Annotations) (e : Entry)
    → (annotate_all a e).is_escalate ≡ e.is_escalate || has_escalate_key a
unfolding annotate_all
annotate_all-is_escalate [] e = ground arith
annotate_all-is_escalate ((key, value) ∷ rest) e =
    annotate_all-is_escalate rest (annotate key value e)
    ∙ ap (λ b. b || has_escalate_key rest) (annotate-is_escalate key value e)
    ∙ or_assoc e.is_escalate (text_eq key (codes "escalate")) (has_escalate_key rest)

pub read_policy-is_escalate :
    (policies : PolicySet) (id : Text)
    → (read_policy policies id).is_escalate ≡ escalates policies id
unfolding read_policy
read_policy-is_escalate policies id = elim (Option-cases (policies id)) [
  | inl e ↦ rw (e, escalates, read_policy) refl
  | inr (a, e) ↦ rw (e, escalates, read_policy) (annotate_all-is_escalate a _)
]

-- One round of the loop over the reasons.
collect-has_escalate :
    (d : CedarDecision) (e : Entry) (f : Found)
    → (collect d e f).has_escalate ≡ f.has_escalate || e.is_escalate
unfolding collect
collect-has_escalate d e f = elim (Bool-cases e.is_escalate) [
  | inl h ↦ rw (h, collect) (ground arith)
  | inr h ↦ rw (h, collect) (ground arith)
]

collect-has_hard_deny :
    (d : CedarDecision) (e : Entry) (f : Found)
    → (collect d e f).has_hard_deny ≡ f.has_hard_deny || (not e.is_escalate && is_deny d)
unfolding collect
collect-has_hard_deny d e f = elim (Bool-cases e.is_escalate) [
  | inl h ↦ rw (h, collect) (ground arith)
  | inr h ↦ rw (h, collect) (ground arith)
]

module _ (policies : PolicySet) (d : CedarDecision) where
  collect_all-has_escalate :
      (ids : List Text) (f : Found)
      → (collect_all policies d ids f).has_escalate ≡ f.has_escalate || any (escalates policies) ids
  unfolding collect_all
  collect_all-has_escalate [] f = ground arith
  collect_all-has_escalate (id ∷ ids) f =
      collect_all-has_escalate ids (collect d (read_policy policies id) f)
      ∙ ap (λ b. b || any (escalates policies) ids)
          (collect-has_escalate d (read_policy policies id) f
            ∙ ap (λ b. f.has_escalate || b) (read_policy-is_escalate policies id))
      ∙ or_assoc f.has_escalate (escalates policies id) (any (escalates policies) ids)

  deny_step : (h e a x : Bool) → (h || (not e && x)) || (not a && x) ≡ h || (not (e && a) && x)
  deny_step true e a x = refl
  deny_step false true true x = refl
  deny_step false true false x = refl
  deny_step false false true true = refl
  deny_step false false true false = refl
  deny_step false false false true = refl
  deny_step false false false false = refl

  collect_all-has_hard_deny :
      (ids : List Text) (f : Found)
      → (collect_all policies d ids f).has_hard_deny
        ≡ f.has_hard_deny || (not (all (escalates policies) ids) && is_deny d)
  unfolding collect_all
  collect_all-has_hard_deny [] f = ground arith
  collect_all-has_hard_deny (id ∷ ids) f =
      collect_all-has_hard_deny ids (collect d (read_policy policies id) f)
      ∙ ap (λ b. b || (not (all (escalates policies) ids) && is_deny d))
          (collect-has_hard_deny d (read_policy policies id) f
            ∙ ap (λ b. f.has_hard_deny || (not b && is_deny d))
                (read_policy-is_escalate policies id))
      ∙ deny_step f.has_hard_deny (escalates policies id) (all (escalates policies) ids) (is_deny d)

-- The decision that the reasons, the Cedar decision and the errors call for.
abbrev pub expected : PolicySet → Response → Decision
expected policies response = elim response.errors [
  | e ∷ errors ↦ Decision.deny
  | [] ↦ elim response.decision [
    | permitted ↦ Decision.allow
    | forbidden ↦
        if any (escalates policies) response.reason && all (escalates policies) response.reason
        then Decision.escalate
        else Decision.deny
  ]
]

decide_lem :
    (d : CedarDecision) (hard escalated : Bool) (metadata : List PolicyMetadata)
    (any_of all_of : Bool)
    → hard ≡ false || (not all_of && is_deny d)
    → escalated ≡ false || any_of
    → decide d (record { metadata = metadata; has_hard_deny = hard; has_escalate = escalated })
      ≡ elim d [
        | permitted ↦ Decision.allow
        | forbidden ↦ if any_of && all_of then Decision.escalate else Decision.deny
      ]
unfolding decide is_deny
decide_lem permitted hard escalated m any_of all_of h e = refl
decide_lem forbidden hard escalated m any_of all_of h e =
    rw h (rw e (ap (λ b. if b then Decision.escalate else Decision.deny) (both any_of all_of)))
  where
    both : (x y : Bool) → x && not (not y && true) ≡ x && y
    both true true = refl
    both true false = refl
    both false y = refl

-- The whole decision table of a verdict: with an error in evaluation it is Deny; without one it
-- is Allow where Cedar allows, Escalate where Cedar denies, at least one reason stands and every
-- reason carries `@escalate`, and Deny in every other case.
pub adjudicated_from_response_decision :
    (response : Response) (policies : PolicySet)
    → (adjudicated_from_response response policies).decision ≡ expected policies response
unfolding adjudicated_from_response with_errors new_adjudicated
adjudicated_from_response_decision response policies = by_errors response.errors (
    decide_lem response.decision _ _ _ (any (escalates policies) response.reason)
      (all (escalates policies) response.reason)
      (collect_all-has_hard_deny policies response.decision response.reason _)
      (collect_all-has_escalate policies response.decision response.reason _))
  where
    by_errors :
        (errors : List Text) {decision wanted : Decision}
        → decision ≡ wanted
        → (with_errors decision errors).0 ≡ elim errors [ e ∷ rest ↦ Decision.deny | [] ↦ wanted ]
    by_errors [] h = h
    by_errors (e ∷ rest) h = refl
