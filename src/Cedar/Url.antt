-- ===== src/Cedar/Url.antt =====
-- The structured view of a URL: crates/policy/cedar/src/url_parse.rs. The `url` crate is a
-- parameter: what its accessors return for a text that it parses.
use sondera_coding_agent_hoo.Prelude.{
  ℕ, Bool, true, false, Option, none, some, [], ◌∷◌, map, ◌==◌, ◌≡◌, refl, Option-cases, inl, inr,
  All, arith,
}
use sondera_coding_agent_hoo.Prelude.Text.{Text, is_ascii_upper}
use sondera_coding_agent_hoo.Prelude.Unicode.{ascii_lower}

-- `scheme()`, `host_str()`, `port()` and `port_or_known_default()` of a `url::Url`.
pub record Url : Type 0 where
  pub scheme : Text
  pub host_str : Option Text
  pub port : Option ℕ
  pub port_or_known_default : Option ℕ

pub record UrlParse : Type 0 where
  pub ok : Bool
  pub scheme : Text
  pub host : Text
  pub port : ℕ
  pub explicit_zero_port : Bool

abbrev pub unparsed : UrlParse
unparsed = record { ok = false; scheme = []; host = []; port = 0; explicit_zero_port = false }

host_of : Option Text → Text
host_of none = []
host_of (some h) = map ascii_lower h

port_of : Option ℕ → ℕ
port_of none = 0
port_of (some p) = p

is_zero : Option ℕ → Bool
is_zero none = false
is_zero (some p) = p == 0

unfoldable pub parse_url : (Text → Option Url) → Text → UrlParse
unfolding host_of port_of is_zero
parse_url parse url = elim (parse url) [
  | none ↦ unparsed
  | some u ↦ record {
    ok = true;
    scheme = u.scheme;
    host = host_of u.host_str;
    port = port_of u.port_or_known_default;
    explicit_zero_port = is_zero u.port;
  }
]

lower_lem : (s : Text) → All (λ c. is_ascii_upper c ≡ false) (map ascii_lower s)
lower_lem [] = tt
lower_lem (c ∷ s) = (lower_one c, lower_lem s)
  where
    lower_one : (c : ℕ) → is_ascii_upper (ascii_lower c) ≡ false
    lower_one c = ground arith

host_lower : (h : Option Text) → All (λ c. is_ascii_upper c ≡ false) (host_of h)
unfolding host_of
host_lower none = tt
host_lower (some h) = lower_lem h

-- A host never holds an ASCII capital, for any URL; and where the URL does not parse, the record
-- is the empty one with `ok` false.
pub parse_url_host :
    (parse : Text → Option Url) (url : Text)
    → All (λ c. is_ascii_upper c ≡ false) (parse_url parse url).host
      × (parse url ≡ none → parse_url parse url ≡ unparsed)
unfolding parse_url
parse_url_host parse url = elim (Option-cases (parse url)) [
  | inl e ↦ rw (e, parse_url) (tt, λ h. refl)
  | inr (u, e) ↦ (rw (e, parse_url) (host_lower u.host_str), λ h. rw (h, parse_url) refl)
]
