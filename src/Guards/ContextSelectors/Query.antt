-- ===== src/Guards/ContextSelectors/Query.antt =====
-- Which queries the guard of context selectors lets through.
use sdkwork_web_framework.Base.{
  true, not, ◌||◌, Option, none, some, List, [], ◌∷◌, is_empty, All, is_ok, ◌≡◌, ◌↔◌, refl, arith,
}
use sdkwork_web_framework.Base.Text.{Str, split, trim}
use sdkwork_web_framework.Guards.ContextSelectors.{
  is_forbidden_context_selector_key, key_of_pair, reject_forbidden_pairs,
  reject_forbidden_context_query,
}

-- A pair is harmless: it is empty, or its key, without white space, selects no context.
abbrev pub IsHarmless : Str → Type 0
IsHarmless pair =
    (is_empty pair || not (is_forbidden_context_selector_key (trim (key_of_pair pair)))) ≡ true

pub reject_forbidden_pairs_iff :
    (pairs : List Str) → (is_ok (reject_forbidden_pairs pairs) ≡ true) ↔ All IsHarmless pairs
unfolding reject_forbidden_pairs
reject_forbidden_pairs_iff [] = (λ h. tt, λ h. refl)
reject_forbidden_pairs_iff (pair ∷ pairs) = ground (arith, reject_forbidden_pairs_iff pairs)

-- A query is let through exactly when each of its pairs is harmless, and a request without a query
-- always is.
pub reject_forbidden_context_query_iff :
    (query : Option Str)
    → (is_ok (reject_forbidden_context_query query) ≡ true)
      ↔ elim query [ none ↦ Unit {0} | some q ↦ All IsHarmless (split b'&' q) ]
unfolding reject_forbidden_context_query
reject_forbidden_context_query_iff none = (λ h. tt, λ h. refl)
reject_forbidden_context_query_iff (some q) = reject_forbidden_pairs_iff (split b'&' q)
