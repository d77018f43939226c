-- ===== src/Cedar/Entity.antt =====
-- Cedar entities and the entity of a trajectory: crates/policy/cedar/src/entity.rs. A `Uid` is what
-- `euid` builds: the entity types that the crate names always parse, so it has no error here.
use sondera_coding_agent_hoo.Prelude.{
  zero, suc, ◌-◌, ◌^◌, Bool, true, ◌&&◌, Option, none, some, List, [], ◌∷◌, ◌++◌, ◌==◌,
  if◌then◌else◌, ◌≡◌, refl,
}
use sondera_coding_agent_hoo.Prelude.Text.{Text, codes, text_eq, text_eq_refl}
use sondera_coding_agent_hoo.Prelude.Int.{ℤ, pos, negsuc}
use sondera_coding_agent_hoo.Types.Json.{HashMap, insert, get}
use sondera_coding_agent_hoo.Guardrails.Label.{Label, public, serde_name, label_from_str}
use sondera_coding_agent_hoo.Guardrails.Label.Laws.{label_from_str-serde_name}

pub record Uid : Type 0 where
  pub type_name : Text
  pub id : Text

unfoldable pub euid : Text → Text → Uid
euid type_name id = record { type_name = codes "Sondera::" ++ type_name; id = id }

unfoldable pub uid_eq : Uid → Uid → Bool
uid_eq a b = text_eq a.type_name b.type_name && text_eq a.id b.id

pub uid_eq_refl : (a : Uid) → uid_eq a a ≡ true
unfolding uid_eq
uid_eq_refl a = rw (text_eq_refl a.type_name) (text_eq_refl a.id)

-- The attribute values that the crate builds and reads back.
pub data Value : Type 0 where
  long : ℤ → Value
  string : Text → Value
  entity_uid : Uid → Value

pub record Entity : Type 0 where
  pub uid : Uid
  pub attrs : HashMap Value
  pub parents : List Uid

-- `EntityBuilder::new`, `string`, `long`, `entity_ref` and `parent_uid`.
abbrev pub new_entity : Uid → Entity
new_entity uid = record { uid = uid; attrs = []; parents = [] }

unfoldable pub with_attr : Text → Value → Entity → Entity
with_attr key value e = record e { attrs = insert e.attrs key value }

unfoldable pub parent_uid : Uid → Entity → Entity
parent_uid uid e = record e { parents = uid ∷ e.parents }

pub record Trajectory : Type 0 where
  pub trajectory_id : Text
  pub step_count : ℤ
  pub label : Label

unfoldable pub new_trajectory : Text → Trajectory
new_trajectory id = record { trajectory_id = id; step_count = pos 0; label = public }

unfoldable pub into_entity : Trajectory → Entity
unfolding with_attr euid
into_entity t = with_attr (codes "label") (entity_uid (euid (codes "Label") (serde_name t.label))) (
    with_attr (codes "step_count") (long t.step_count)
      (new_entity (euid (codes "Trajectory") t.trajectory_id)))

read_count : Option Value → ℤ
read_count (some (long n)) = n
read_count _ = pos 0

label_or_public : Option Label → Label
label_or_public none = public
label_or_public (some l) = l

read_label : Option Value → Label
read_label none = public
read_label (some (long n)) = public
read_label (some (string s)) = label_or_public (label_from_str s)
read_label (some (entity_uid uid)) = label_or_public (label_from_str uid.id)

-- `Trajectory::try_from(entity)`, which has no error of its own.
unfoldable pub from_entity : Entity → Trajectory
unfolding read_count read_label label_or_public
from_entity e = record {
  trajectory_id = e.uid.id;
  step_count = read_count (get e.attrs (codes "step_count"));
  label = read_label (get e.attrs (codes "label"));
}

-- `step_count += 1` on an `i64`, which wraps at 2 ^ 63 - 1.
unfoldable pub increment : ℤ → ℤ
increment (pos n) = if n == 2 ^ 63 - 1 then negsuc (2 ^ 63 - 1) else pos (suc n)
increment (negsuc zero) = pos 0
increment (negsuc (suc n)) = negsuc n

-- A trajectory survives the round trip through its Cedar entity.
pub from_entity-into_entity : (t : Trajectory) → from_entity (into_entity t) ≡ t
unfolding from_entity into_entity insert get text_eq
from_entity-into_entity t = rw (label_from_str-serde_name t.label) refl
