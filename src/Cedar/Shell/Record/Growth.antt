-- ===== src/Cedar/Shell/Record/Growth.antt =====
-- Each operation that files a program, an argument or a flag (crates/policy/cedar/src/shell_parse.rs)
-- only adds to the parse.
use sondera_coding_agent_hoo.Prelude.{
  ◌≡◌, Bool, true, false, ◌&&◌, Option, none, some, List, [], ◌∷◌, Option-cases, ◌==◌,
  if◌then◌else◌, not, ◌&&◌, all, inl, inr,
}
use sondera_coding_agent_hoo.Prelude.Text.{
  Text, is_empty, is_ascii_alphabetic, scoped, text_eq, split, strip_prefix,
}
use sondera_coding_agent_hoo.Prelude.Sets.{set_insert, Has-set_insert}
use sondera_coding_agent_hoo.Prelude.Unicode.{Unicode}
use sondera_coding_agent_hoo.Cedar.Shell.Record.{
  ShellParse, insert_program, insert_components, insert_normalized_arg_view, insert_raw_view,
  insert_arg, insert_flag_as, insert_singletons, insert_short, insert_flag,
}
use sondera_coding_agent_hoo.Cedar.Shell.Record.Order.{
  ◌⊆◌, Grows, Grows-refl, Grows-trans, Grows-if,
}

-- A set that keeps its texts.
record Adds (s t : List Text) : Type 0 where
  kept : s ⊆ t

same : (s : List Text) → Adds s s
same s = record { kept = λ x h. h }

inserted : (x : Text) (s : List Text) → Adds s (set_insert x s)
inserted x s = record { kept = λ y. Has-set_insert y x s }

-- A change of the six sets alone.
module _ (p : ShellParse) {a b c d e f : List Text} where
  Grows_sets :
      Adds p.programs a
      → Adds p.program_flags b
      → Adds p.program_flags_normalized c
      → Adds p.program_args d
      → Adds p.program_args_normalized e
      → Adds p.program_arg_path_components_normalized f
      → Grows p (record p {
        programs = a;
        program_flags = b;
        program_flags_normalized = c;
        program_args = d;
        program_args_normalized = e;
        program_arg_path_components_normalized = f;
      })
  Grows_sets ha hb hc hd he hf = record {
    holds = record {
      ok = λ h. h;
      programs = ha.kept;
      flags = hb.kept;
      flags_normalized = hc.kept;
      args = hd.kept;
      args_normalized = he.kept;
      components = hf.kept;
      dynamic_command = λ h. h;
      command_substitution = λ h. h;
      pipeline = λ h. h;
      redirection = λ h. h;
    };
  }

-- A change of `ok` and the four flags alone.
pub Grows_bools :
    (p : ShellParse) (o d s l r : Bool)
    → (o ≡ true → p.ok ≡ true)
    → (p.has_dynamic_command ≡ true → d ≡ true)
    → (p.has_command_substitution ≡ true → s ≡ true)
    → (p.has_pipeline ≡ true → l ≡ true)
    → (p.has_redirection ≡ true → r ≡ true)
    → Grows p (record p {
      ok = o;
      has_dynamic_command = d;
      has_command_substitution = s;
      has_pipeline = l;
      has_redirection = r;
    })
Grows_bools p o d s l r ho hd hs hl hr = record {
  holds = record {
    ok = ho;
    programs = λ x h. h;
    flags = λ x h. h;
    flags_normalized = λ x h. h;
    args = λ x h. h;
    args_normalized = λ x h. h;
    components = λ x h. h;
    dynamic_command = hd;
    command_substitution = hs;
    pipeline = hl;
    redirection = hr;
  };
}

pub Grows-insert_program : (prog : Text) (p : ShellParse) → Grows p (insert_program prog p)
unfolding insert_program
Grows-insert_program prog p =
    Grows_sets p (inserted prog p.programs) (same _) (same _) (same _) (same _) (same _)

Adds-trans : {s t r : List Text} → Adds s t → Adds t r → Adds s r
Adds-trans a b = record { kept = λ x h. b.kept x (a.kept x h) }

Adds-if : {s t r : List Text} (b : Bool) → Adds s t → Adds s r → Adds s (if b then t else r)
Adds-if true h k = h
Adds-if false h k = k

insert_components-grows : (prog : Text) (cs s : List Text) → Adds s (insert_components prog cs s)
unfolding insert_components
insert_components-grows prog [] s = same s
insert_components-grows prog (c ∷ cs) s =
    Adds-trans (Adds-if (is_empty c) (same s) (inserted (scoped prog c) s))
      (insert_components-grows prog cs _)

pub Grows-insert_normalized_arg_view :
    (prog normalized : Text) (p : ShellParse)
    → Grows p (insert_normalized_arg_view prog normalized p)
unfolding insert_normalized_arg_view
Grows-insert_normalized_arg_view prog normalized p =
    Grows_sets p (same _) (same _) (same _) (same _)
      (inserted (scoped prog normalized) p.program_args_normalized)
      (insert_components-grows prog (split (λ c. c == b'/') normalized)
        p.program_arg_path_components_normalized)

Grows-insert_raw_view :
    (prog normalized raw : Text) (p : ShellParse) → Grows p (insert_raw_view prog normalized raw p)
unfolding insert_raw_view
Grows-insert_raw_view prog normalized raw p =
    Grows-if (text_eq raw normalized) (Grows-refl p) (Grows-insert_normalized_arg_view prog raw p)

Grows-file :
    (prog text : Text) (p : ShellParse)
    → Grows p (record p { program_args = set_insert (scoped prog text) p.program_args })
Grows-file prog text p =
    Grows_sets p (same _) (same _) (same _) (inserted (scoped prog text) p.program_args) (same _)
      (same _)

module _ (u : Unicode) (prog : Text) where
  pub Grows-insert_arg :
      (text : Text) (raw : Option Text) (p : ShellParse) → Grows p (insert_arg u prog text raw p)
  unfolding insert_arg
  Grows-insert_arg text none p =
      Grows-trans (Grows-file prog text p) (Grows-insert_normalized_arg_view prog _ _)
  Grows-insert_arg text (some source) p =
      Grows-trans (Grows-file prog text p)
        (Grows-trans (Grows-insert_normalized_arg_view prog _ _) (Grows-insert_raw_view prog _ _ _))

  Grows-insert_flag_as :
      (flag normalized : Text) (p : ShellParse) → Grows p (insert_flag_as prog flag normalized p)
  unfolding insert_flag_as
  Grows-insert_flag_as flag normalized p =
      Grows_sets p (same _) (inserted (scoped prog flag) p.program_flags)
        (inserted (scoped prog normalized) p.program_flags_normalized) (same _) (same _) (same _)

  Grows-insert_singletons : (cs : Text) (p : ShellParse) → Grows p (insert_singletons u prog cs p)
  unfolding insert_singletons
  Grows-insert_singletons [] p = Grows-refl p
  Grows-insert_singletons (c ∷ cs) p =
      Grows-trans (Grows-insert_flag_as _ _ p) (Grows-insert_singletons cs _)

  Grows-insert_short : (text : Text) (p : ShellParse) → Grows p (insert_short u prog text p)
  unfolding insert_short
  Grows-insert_short text p = elim (Option-cases (strip_prefix text (b'-' ∷ []))) [
    | inl e ↦ rw (e, insert_short) (Grows-insert_flag_as text _ p)
    | inr (body, e) ↦
        rw (e, insert_short)
          (Grows-trans (Grows-insert_flag_as text _ p) (
            Grows-if (not (is_empty body) && all is_ascii_alphabetic body)
              (Grows-insert_singletons body _) (Grows-refl _)))
  ]

  pub Grows-insert_flag : (text : Text) (p : ShellParse) → Grows p (insert_flag u prog text p)
  unfolding insert_flag
  Grows-insert_flag text p = elim (Option-cases (strip_prefix text (b'-' ∷ b'-' ∷ []))) [
    | inl e ↦ rw (e, insert_flag) (Grows-insert_short text p)
    | inr (rest, e) ↦ rw (e, insert_flag) (Grows-insert_flag_as _ _ p)
  ]
