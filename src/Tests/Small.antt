-- ===== src/Tests/Small.antt =====
-- The word-level helpers, the paths, the guardrails and the shared types on concrete inputs.
use sondera_coding_agent_hoo.Prelude.{
  true, ◌≡◌, ◌⊎◌, refl, false, Option, none, some, List, [], ◌∷◌, Has, inl, ◌≤◌, arith,
}
use sondera_coding_agent_hoo.Prelude.Text.{Text, codes}
use sondera_coding_agent_hoo.Prelude.Int.{pos}
use sondera_coding_agent_hoo.Prelude.Unicode.{IsTable, ascii_only, to_lowercase}
use sondera_coding_agent_hoo.Types.Json.{get}
use sondera_coding_agent_hoo.Guardrails.Label.{
  public, internal, confidential, level, SensitivityFinding, SensitivityClassification, max_label,
}
use sondera_coding_agent_hoo.Guardrails.Label.Laws.{max_label-IsMax}
use sondera_coding_agent_hoo.Guardrails.Signature.{Match, severity_rank, match_severity, scan}
use sondera_coding_agent_hoo.Guardrails.Signature.Laws.{scan_bounds}
use sondera_coding_agent_hoo.Cedar.Path.{normalize_path_value}
use sondera_coding_agent_hoo.Cedar.Path.Laws.{
  IsNormal, normalize_path_value-IsNormal, normalize_path_value_idem,
}
use sondera_coding_agent_hoo.Cedar.Shell.Words.{unescape_unquoted_word, unescape_double_quoted}
use sondera_coding_agent_hoo.Cedar.Shell.Words.Quoting.{
  quote_unquoted, Piece, escaped_dollar, escaped_backslash, joined_line, written, meaning,
  unescape_unquoted_word-quote_unquoted, unescape_double_quoted-written,
}
use sondera_coding_agent_hoo.Cedar.Shell.Ansi.{unescape_bytes}
use sondera_coding_agent_hoo.Cedar.Shell.Ansi.Laws.{quote_bytes, unescape_bytes-quote_bytes}
use sondera_coding_agent_hoo.Cedar.Url.{Url}
use sondera_coding_agent_hoo.Cedar.Entity.{
  Trajectory, from_entity, into_entity, from_entity-into_entity,
}

ascii_only-IsTable : IsTable ascii_only
unfolding to_lowercase
ascii_only-IsTable = record {
  fixed = λ c h. (ground arith, tt);
  occupied = λ c h e. cc;
  no_slash = λ c h. ((ground arith, ground arith), tt);
}

normalize_path_value-IsNormal_example :
    IsNormal ascii_only false (normalize_path_value ascii_only (codes "C:\\Users"))
normalize_path_value-IsNormal_example =
    normalize_path_value-IsNormal ascii_only ascii_only-IsTable (codes "C:\\Users")

normalize_path_value_idem_example :
    normalize_path_value ascii_only (normalize_path_value ascii_only (codes "C:\\Users"))
    ≡ normalize_path_value ascii_only (codes "C:\\Users")
normalize_path_value_idem_example =
    normalize_path_value_idem ascii_only ascii_only-IsTable (codes "C:\\Users")

unescape_unquoted_word-quote_unquoted_example :
    unescape_unquoted_word (quote_unquoted (codes "a b")) ≡ codes "a b"
unescape_unquoted_word-quote_unquoted_example = unescape_unquoted_word-quote_unquoted (codes "a b")

abbrev quoted_pieces : List Piece
quoted_pieces = escaped_dollar ∷ joined_line ∷ escaped_backslash ∷ []

unescape_double_quoted-written_example :
    unescape_double_quoted (written quoted_pieces true) ≡ meaning quoted_pieces true
unescape_double_quoted-written_example = unescape_double_quoted-written quoted_pieces true

unescape_bytes-quote_bytes_example :
    unescape_bytes 0 (quote_bytes (0x2f ∷ 0xff ∷ [])) ≡ 0x2f ∷ 0xff ∷ []
unescape_bytes-quote_bytes_example =
    unescape_bytes-quote_bytes (0x2f ∷ 0xff ∷ []) (omega arith, (omega arith, tt))

abbrev findings : SensitivityClassification
findings = record {
  is_public = false;
  findings =
      record { label = confidential; description = codes "x" }
      ∷ record { label = internal; description = codes "y" }
      ∷ [];
}

highest : max_label findings ≡ confidential
unfolding max_label level
highest = refl

max_label-IsMax_example :
    ((f : SensitivityFinding)
      → Has f findings.findings
      → level f.label ≤ level (max_label findings))
    × (((findings.findings ≡ []) × (max_label findings ≡ public))
        ⊎ ((f : SensitivityFinding) × (Has f findings.findings × (max_label findings ≡ f.label))))
max_label-IsMax_example = max_label-IsMax findings

abbrev hit : Match
hit = record {
  identifier = codes "r";
  namespace = codes "n";
  metadata = (codes "category", codes "secrets") ∷ (codes "severity", codes "high") ∷ [];
}

abbrev scanner : Text → Option (List Match)
scanner c = some (hit ∷ [])

hit_found : Has hit (scan scanner (codes "x")).matches
unfolding scan
hit_found = inl refl

scan_bounds_example :
    (severity_rank (match_severity hit) ≤ severity_rank (scan scanner (codes "x")).severity)
    × ((c : Text)
        → get hit.metadata (codes "category") ≡ some c
        → Has c (scan scanner (codes "x")).categories)
scan_bounds_example = scan_bounds scanner (codes "x") hit hit_found

abbrev url_of : Text → Option Url
url_of t = some (record {
  scheme = codes "https";
  host_str = some (codes "Evil.COM");
  port = none;
  port_or_known_default = some 443;
})

abbrev run : Trajectory
run = record { trajectory_id = codes "t"; step_count = pos 3; label = confidential }

from_entity-into_entity_example : from_entity (into_entity run) ≡ run
from_entity-into_entity_example = from_entity-into_entity run
