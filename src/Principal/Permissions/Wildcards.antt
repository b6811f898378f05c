-- ===== src/Principal/Permissions/Wildcards.antt =====
-- What a wildcard permission grants.
use sdkwork_web_framework.Base.{
  true, ◌||◌, ◌==◌, none, some, ◌++◌, is_empty, ◌≡◌, ◌⊎◌, inl, inr, sym, Bool-cases,
}
use sdkwork_web_framework.Base.Text.{Str, lit, str_eq, trim_end, to_ascii_lowercase, trim}
use sdkwork_web_framework.Base.Text.Laws.{str_eq_sound, starts_with-eq-true}
use sdkwork_web_framework.Base.Text.Ops.{strip_suffix}
use sdkwork_web_framework.Principal.Permissions.{
  matches_below, normalized_code_matches, permission_code_matches,
}

below-cases :
    (prefix required : Str)
    → matches_below prefix required ≡ true
    → (required ≡ prefix) ⊎ ((rest : Str) × (required ≡ prefix ++ lit "." ++ rest))
unfolding matches_below
below-cases prefix required h = elim (Bool-cases (str_eq required prefix)) [
  | inl same ↦ inl (str_eq_sound required prefix same)
  | inr other ↦
      inr (starts_with-eq-true (prefix ++ lit ".") required (rw (matches_below, other) at h))
]

star_suffix :
    (granted front : Str)
    → str_eq granted (lit "*") ≡ true
    → strip_suffix (lit ".*") granted ≡ some front
    → none ≡ some front
unfolding strip_suffix lit str_eq
star_suffix granted front star suffix = rw (str_eq_sound granted (lit "*") star) at suffix

confined :
    (granted required front : Str)
    → strip_suffix (lit ".*") granted ≡ some front
    → normalized_code_matches granted required ≡ true
    → (required ≡ granted)
      ⊎ ((required ≡ trim_end (λ c. c == b'.') front)
          ⊎ ((rest : Str) × (required ≡ trim_end (λ c. c == b'.') front ++ lit "." ++ rest)))
unfolding normalized_code_matches
confined granted required front suffix matched =
    elim (Bool-cases (is_empty granted || is_empty required)) [
      | inl blank ↦ cc (rw (normalized_code_matches, blank) at matched)
      | inr given ↦ elim (Bool-cases (str_eq granted required)) [
        | inl same ↦ inl (sym (str_eq_sound granted required same))
        | inr other ↦ elim (Bool-cases (str_eq granted (lit "*"))) [
          | inl star ↦ cc (star_suffix granted front star suffix)
          | inr named ↦ inr (
              below-cases (trim_end (λ c. c == b'.') front) required
                (rw (normalized_code_matches, given, named, other, suffix) at matched))
        ]
      ]
    ]

-- A grant that ends in `.*` grants only its own prefix and what lies below it at a dot: never a
-- sibling whose name merely begins like the prefix; letter case and outer white space do not count.
pub subtree_grant-confined :
    (granted required front : Str)
    → strip_suffix (lit ".*") (to_ascii_lowercase (trim granted)) ≡ some front
    → permission_code_matches granted required ≡ true
    → (to_ascii_lowercase (trim required) ≡ to_ascii_lowercase (trim granted))
      ⊎ ((to_ascii_lowercase (trim required) ≡ trim_end (λ c. c == b'.') front)
          ⊎ ((rest : Str) × (to_ascii_lowercase (trim required)
                ≡ trim_end (λ c. c == b'.') front ++ lit "." ++ rest)))
unfolding permission_code_matches
subtree_grant-confined granted required front suffix matched =
    confined (to_ascii_lowercase (trim granted)) (to_ascii_lowercase (trim required)) front suffix
      matched
