-- ===== src/Hooks/Tool/Web.antt =====
-- The tool calls that fetch from the web: crates/hooks/core/src/tool.rs.
use sondera_coding_agent_hoo.Prelude.{Bool, Option, none, some, List, [], ◌∷◌, if◌then◌else◌}
use sondera_coding_agent_hoo.Prelude.Text.{Text, codes, contains_text}
use sondera_coding_agent_hoo.Types.Json.{
  Json, Elements, none_left, element, as_str, as_array, get_key,
}
use sondera_coding_agent_hoo.Types.Action.{WebFetch}
use sondera_coding_agent_hoo.Hooks.Tool.{normalize_tool_name, string_arg, text_or, or_text, is_some}

abbrev web_tools : List Text
web_tools =
    codes "webfetch"
    ∷ codes "fetch"
    ∷ codes "fetchwebpage"
    ∷ codes "fetchurl"
    ∷ codes "readurl"
    ∷ codes "readurlcontent"
    ∷ codes "weburl"
    ∷ codes "httprequest"
    ∷ codes "http"
    ∷ []

abbrev url_keys : List Text
url_keys = codes "url" ∷ codes "Url" ∷ codes "URL" ∷ codes "uri" ∷ codes "href" ∷ codes "link" ∷ []

unfoldable pub is_web_tool : Text → Bool
unfolding normalize_tool_name
is_web_tool name = contains_text web_tools (normalize_tool_name name)

first_string : Elements → Option Text
first_string none_left = none
first_string (element v es) =
    let rest = first_string es in elim (as_str v) [ none ↦ rest | some s ↦ some s ]

string_in : Option Json → Option Text
unfolding first_string
string_in none = none
string_in (some v) = elim (as_array v) [ none ↦ none | some es ↦ first_string es ]

unfoldable pub first_string_in_list : Json → List Text → Option Text
unfolding string_in
first_string_in_list args [] = none
first_string_in_list args (k ∷ ks) =
    let rest = first_string_in_list args ks in
    elim (string_in (get_key args k)) [ none ↦ rest | some s ↦ some s ]

unfoldable pub web_url_arg : Json → Option Text
unfolding string_arg or_text first_string_in_list
web_url_arg args =
    or_text (string_arg args url_keys)
      (first_string_in_list args (codes "urls" ∷ codes "links" ∷ []))

fetch_of : Option Text → Text → Text → Option WebFetch
fetch_of none prompt call_id = none
fetch_of (some url) prompt call_id = some (record { call_id = call_id; url = url; prompt = prompt })

unfoldable pub web_fetch_folded : Text → Json → Text → Option WebFetch
unfolding fetch_of web_url_arg string_arg text_or
web_fetch_folded folded args call_id =
    if contains_text web_tools folded
    then fetch_of (web_url_arg args)
        (text_or [] (
          string_arg args
            (codes "prompt" ∷ codes "query" ∷ codes "question" ∷ codes "instructions" ∷ [])))
        call_id
    else none

unfoldable pub web_fetch_for : Text → Json → Text → Option WebFetch
unfolding web_fetch_folded normalize_tool_name
web_fetch_for name args call_id = web_fetch_folded (normalize_tool_name name) args call_id

unfoldable pub is_web_fetch : Text → Json → Bool
unfolding is_some web_fetch_for
is_web_fetch name args = is_some (web_fetch_for name args [])
