-- ===== src/Principal/Permissions.antt =====
-- crates/sdkwork-web-core/src/request_context.rs: wildcard permissions.
pub mod Wildcards
use sdkwork_web_framework.Base.{
  Bool, true, false, ◌&&◌, ◌||◌, ◌==◌, Option, none, some, List, [], ◌∷◌, ◌++◌, any, is_empty,
  if◌then◌else◌,
}
use sdkwork_web_framework.Base.Text.{
  Str, lit, str_eq, trim, trim_start, trim_end, starts_with, ends_with, split, strip_prefix,
  to_ascii_lowercase,
}
use sdkwork_web_framework.Base.Text.Ops.{strip_suffix}

-- `split(d).next_back()`; `split` always answers a piece
unfoldable pub last_piece : List Str → Str
last_piece [] = []
last_piece (s ∷ []) = s
last_piece (s ∷ t ∷ r) = last_piece (t ∷ r)

-- the branch of a grant `prefix.*`, for the trimmed prefix
unfoldable pub matches_below : Str → Str → Bool
matches_below prefix required = str_eq required prefix || starts_with (prefix ++ lit ".") required

-- the branch of a grant `*.action`, for the trimmed action
unfoldable pub matches_action : Str → Str → Bool
matches_action action required =
    ends_with action required && str_eq (last_piece (split b'.' required)) action

-- `permission_code_matches` on texts that are trimmed and in lower case
unfoldable pub normalized_code_matches : Str → Str → Bool
unfolding matches_below matches_action
normalized_code_matches granted required =
    if is_empty granted || is_empty required
    then false
    else if str_eq granted (lit "*") || str_eq granted required
    then true
    else elim (strip_suffix (lit ".*") granted) [
      | some front ↦ matches_below (trim_end (λ c. c == b'.') front) required
      | none ↦ elim (strip_prefix (lit "*.") granted) [
        | some action ↦ matches_action (trim_start (λ c. c == b'.') action) required
        | none ↦ false
      ]
    ]

unfoldable pub permission_code_matches : Str → Str → Bool
unfolding normalized_code_matches
permission_code_matches granted required =
    normalized_code_matches (to_ascii_lowercase (trim granted)) (to_ascii_lowercase (trim required))

unfoldable pub permission_scope_matches_any : List Str → Str → Bool
unfolding permission_code_matches
permission_scope_matches_any granted_codes required =
    any (λ granted. permission_code_matches granted required) granted_codes
