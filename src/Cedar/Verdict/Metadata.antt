-- ===== src/Cedar/Verdict/Metadata.antt =====
-- The metadata of a verdict: one entry for each reason (crates/policy/cedar/src/transform.rs).
use sondera_coding_agent_hoo.Prelude.{
  Bool, true, false, some, List, [], ◌∷◌, ◌++◌, if◌then◌else◌, map, ◌≡◌, refl, ◌∙◌, ap, Bool-cases,
  Option-cases, inl, inr,
}
use sondera_coding_agent_hoo.Prelude.Text.{Text, codes, text_eq}
use sondera_coding_agent_hoo.Types.Policy.{
  PolicyMetadata, with_id, with_description, with_escalate, with_key,
}
use sondera_coding_agent_hoo.Cedar.Verdict.{
  CedarDecision, Response, Annotations, PolicySet, Entry, annotate, annotate_all, read_policy,
  Found, collect, collect_all, adjudicated_from_response,
}
use sondera_coding_agent_hoo.Cedar.Verdict.Laws.{escalates, read_policy-is_escalate}

-- What annotations leave alone: the id, and the flag that only the end of the loop sets.
record Keeps (id : Text) (e : Entry) : Type 0 where
  policy_id : e.entry.policy_id ≡ some id
  escalate : e.entry.escalate ≡ false

Keeps-if :
    {id : Text} {e f : Entry} (b : Bool) → Keeps id e → Keeps id f → Keeps id (if b then e else f)
Keeps-if true h k = h
Keeps-if false h k = k

annotate-Keeps :
    {id : Text} (key value : Text) (e : Entry) → Keeps id e → Keeps id (annotate key value e)
unfolding annotate with_description with_key
annotate-Keeps key value e h = Keeps-if (text_eq key (codes "id")) h (
    Keeps-if (text_eq key (codes "description"))
      (record { policy_id = h.policy_id; escalate = h.escalate })
      (Keeps-if (text_eq key (codes "escalate"))
        (record { policy_id = h.policy_id; escalate = h.escalate })
        (record { policy_id = h.policy_id; escalate = h.escalate })))

annotate_all-Keeps :
    {id : Text} (a : Annotations) (e : Entry) → Keeps id e → Keeps id (annotate_all a e)
unfolding annotate_all
annotate_all-Keeps [] e h = h
annotate_all-Keeps ((key, value) ∷ rest) e h =
    annotate_all-Keeps rest _ (annotate-Keeps key value e h)

read_policy-Keeps : (policies : PolicySet) (id : Text) → Keeps id (read_policy policies id)
unfolding read_policy with_id
read_policy-Keeps policies id = elim (Option-cases (policies id)) [
  | inl e ↦ rw (e, read_policy) (record { policy_id = refl; escalate = refl })
  | inr (a, e) ↦
      rw (e, read_policy) (annotate_all-Keeps a _ (record { policy_id = refl; escalate = refl }))
]

-- The entry that one reason leaves.
abbrev entry_of : Entry → PolicyMetadata
entry_of e = if e.is_escalate then with_escalate e.escalate_arg e.entry else e.entry

collect-metadata :
    (d : CedarDecision) (e : Entry) (f : Found)
    → (collect d e f).metadata ≡ f.metadata ++ entry_of e ∷ []
unfolding collect
collect-metadata d e f = elim (Bool-cases e.is_escalate) [
  | inl h ↦ rw (h, collect) refl
  | inr h ↦ rw (h, collect) refl
]

entry_of-policy_id : {id : Text} (e : Entry) → Keeps id e → (entry_of e).policy_id ≡ some id
unfolding with_escalate
entry_of-policy_id e h = elim (Bool-cases e.is_escalate) [
  | inl k ↦ rw k h.policy_id
  | inr k ↦ rw k h.policy_id
]

entry_of-escalate : {id : Text} (e : Entry) → Keeps id e → (entry_of e).escalate ≡ e.is_escalate
unfolding with_escalate
entry_of-escalate e h = elim (Bool-cases e.is_escalate) [
  | inl k ↦ rw k refl
  | inr k ↦ rw k h.escalate
]

append_assoc :
    {A : Type 0} (xs : List A) (x : A) (ys : List A) → (xs ++ x ∷ []) ++ ys ≡ xs ++ x ∷ ys
append_assoc [] x ys = refl
append_assoc (y ∷ xs) x ys = ap (λ r. y ∷ r) (append_assoc xs x ys)

module _ (policies : PolicySet) (d : CedarDecision) where
  collect_all-metadata :
      (ids : List Text) (f : Found)
      → (collect_all policies d ids f).metadata
        ≡ f.metadata ++ map (λ id. entry_of (read_policy policies id)) ids
  unfolding collect_all
  collect_all-metadata [] f = append_nil f.metadata
    where
      append_nil : (xs : List PolicyMetadata) → xs ≡ xs ++ []
      append_nil [] = refl
      append_nil (x ∷ xs) = ap (λ r. x ∷ r) (append_nil xs)
  collect_all-metadata (id ∷ ids) f =
      collect_all-metadata ids (collect d (read_policy policies id) f)
      ∙ ap (λ m. m ++ map (λ i. entry_of (read_policy policies i)) ids)
          (collect-metadata d (read_policy policies id) f)
      ∙ append_assoc f.metadata (entry_of (read_policy policies id)) _

  ids_of :
      (ids : List Text)
      → map (λ m. m.policy_id) (map (λ id. entry_of (read_policy policies id)) ids) ≡ map some ids
  ids_of [] = refl
  ids_of (id ∷ ids) =
      rw (entry_of-policy_id (read_policy policies id) (read_policy-Keeps policies id))
        (ap (λ r. some id ∷ r) (ids_of ids))

  escalates_of :
      (ids : List Text)
      → map (λ m. m.escalate) (map (λ id. entry_of (read_policy policies id)) ids)
        ≡ map (escalates policies) ids
  escalates_of [] = refl
  escalates_of (id ∷ ids) =
      rw
        (entry_of-escalate (read_policy policies id) (read_policy-Keeps policies id)
          ∙ read_policy-is_escalate policies id)
        (ap (λ r. escalates policies id ∷ r) (escalates_of ids))

-- No reason is lost or reordered: the metadata of a verdict holds one entry for each reason of the
-- response, in order, under the policy's own id (an `@id` annotation does not replace it), and an
-- entry is marked `escalate` exactly where its policy carries `@escalate`.
pub adjudicated_from_response_metadata :
    (response : Response) (policies : PolicySet)
    → (map (λ m. m.policy_id) (adjudicated_from_response response policies).metadata
        ≡ map some response.reason)
      × (map (λ m. m.escalate) (adjudicated_from_response response policies).metadata
          ≡ map (escalates policies) response.reason)
unfolding adjudicated_from_response
adjudicated_from_response_metadata response policies =
    let e = collect_all-metadata policies response.decision response.reason _ in
    (
      ap (λ m. map (λ x. x.policy_id) m) e ∙ ids_of policies response.decision response.reason,
      ap (λ m. map (λ x. x.escalate) m) e ∙ escalates_of policies response.decision response.reason,
    )
