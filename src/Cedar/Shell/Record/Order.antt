-- ===== src/Cedar/Shell/Record/Order.antt =====
-- The order on the records of crates/policy/cedar/src/shell_parse.rs: a later parse holds all that
-- an earlier one holds, and `ok` only falls.
use sondera_coding_agent_hoo.Prelude.{◌≡◌, Bool, true, false, ◌||◌, List, arith, Has, if◌then◌else◌}
use sondera_coding_agent_hoo.Prelude.Text.{Text}
use sondera_coding_agent_hoo.Prelude.Sets.{Has-set_extend_left, Has-set_extend_right}
use sondera_coding_agent_hoo.Cedar.Shell.Record.{ShellParse, merge}

infix 50 ◌⊆◌
abbrev pub ◌⊆◌ : List Text → List Text → Type 0
s ⊆ t = (x : Text) → Has x s → Has x t

-- `q` holds all that `p` holds, and is `ok` only if `p` is.
pub record Holds (p q : ShellParse) : Type 0 where
  pub ok : q.ok ≡ true → p.ok ≡ true
  pub programs : p.programs ⊆ q.programs
  pub flags : p.program_flags ⊆ q.program_flags
  pub flags_normalized : p.program_flags_normalized ⊆ q.program_flags_normalized
  pub args : p.program_args ⊆ q.program_args
  pub args_normalized : p.program_args_normalized ⊆ q.program_args_normalized
  pub components :
      p.program_arg_path_components_normalized ⊆ q.program_arg_path_components_normalized
  pub dynamic_command : p.has_dynamic_command ≡ true → q.has_dynamic_command ≡ true
  pub command_substitution : p.has_command_substitution ≡ true → q.has_command_substitution ≡ true
  pub pipeline : p.has_pipeline ≡ true → q.has_pipeline ≡ true
  pub redirection : p.has_redirection ≡ true → q.has_redirection ≡ true

-- What a step of the walk from `p` to `q` guarantees.
pub record Grows (p q : ShellParse) : Type 0 where
  pub holds : Holds p q
  pub open holds use *

Holds-refl : (p : ShellParse) → Holds p p
Holds-refl p = record {
  ok = λ h. h;
  programs = λ x h. h;
  flags = λ x h. h;
  flags_normalized = λ x h. h;
  args = λ x h. h;
  args_normalized = λ x h. h;
  components = λ x h. h;
  dynamic_command = λ h. h;
  command_substitution = λ h. h;
  pipeline = λ h. h;
  redirection = λ h. h;
}

pub Grows-refl : (p : ShellParse) → Grows p p
Grows-refl p = record { holds = Holds-refl p }

pub Holds-trans : {p q r : ShellParse} → Holds p q → Holds q r → Holds p r
Holds-trans a b = record {
  ok = λ h. a.ok (b.ok h);
  programs = λ x h. b.programs x (a.programs x h);
  flags = λ x h. b.flags x (a.flags x h);
  flags_normalized = λ x h. b.flags_normalized x (a.flags_normalized x h);
  args = λ x h. b.args x (a.args x h);
  args_normalized = λ x h. b.args_normalized x (a.args_normalized x h);
  components = λ x h. b.components x (a.components x h);
  dynamic_command = λ h. b.dynamic_command (a.dynamic_command h);
  command_substitution = λ h. b.command_substitution (a.command_substitution h);
  pipeline = λ h. b.pipeline (a.pipeline h);
  redirection = λ h. b.redirection (a.redirection h);
}

pub Grows-trans : {p q r : ShellParse} → Grows p q → Grows q r → Grows p r
Grows-trans a b = record { holds = Holds-trans a.holds b.holds }

pub Grows-if :
    {p q r : ShellParse} (b : Bool) → Grows p q → Grows p r → Grows p (if b then q else r)
Grows-if true h k = h
Grows-if false h k = k

or_left : (a b : Bool) → a ≡ true → (a || b) ≡ true
or_left a b h = ground arith

or_right : (a b : Bool) → b ≡ true → (a || b) ≡ true
or_right a b h = ground arith

Holds-merge : (p q : ShellParse) → Holds p (merge p q)
unfolding merge
Holds-merge p q = record {
  ok = λ h. ground arith;
  programs = λ x. Has-set_extend_left x p.programs q.programs;
  flags = λ x. Has-set_extend_left x p.program_flags q.program_flags;
  flags_normalized =
      λ x. Has-set_extend_left x p.program_flags_normalized q.program_flags_normalized;
  args = λ x. Has-set_extend_left x p.program_args q.program_args;
  args_normalized = λ x. Has-set_extend_left x p.program_args_normalized q.program_args_normalized;
  components = λ x.
      Has-set_extend_left x p.program_arg_path_components_normalized
        q.program_arg_path_components_normalized;
  dynamic_command = or_left _ _;
  command_substitution = or_left _ _;
  pipeline = or_left _ _;
  redirection = or_left _ _;
}

pub Grows-merge : (p q : ShellParse) → Grows p (merge p q)
Grows-merge p q = record { holds = Holds-merge p q }

-- A merge holds all that the merged parse holds, and is `ok` only if that parse is.
pub Holds-merge_right : (p q : ShellParse) → Holds q (merge p q)
unfolding merge
Holds-merge_right p q = record {
  ok = λ h. ground arith;
  programs = λ x. Has-set_extend_right x p.programs q.programs;
  flags = λ x. Has-set_extend_right x p.program_flags q.program_flags;
  flags_normalized =
      λ x. Has-set_extend_right x p.program_flags_normalized q.program_flags_normalized;
  args = λ x. Has-set_extend_right x p.program_args q.program_args;
  args_normalized = λ x. Has-set_extend_right x p.program_args_normalized q.program_args_normalized;
  components = λ x.
      Has-set_extend_right x p.program_arg_path_components_normalized
        q.program_arg_path_components_normalized;
  dynamic_command = or_right _ _;
  command_substitution = or_right _ _;
  pipeline = or_right _ _;
  redirection = or_right _ _;
}
