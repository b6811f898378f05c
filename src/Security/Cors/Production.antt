-- ===== src/Security/Cors/Production.antt =====
-- Which origins a production policy admits.
use sdkwork_web_framework.Base.{
  Bool, true, false, ◌||◌, none, some, List, [], ◌∷◌, any, if◌then◌else◌, ◌≡◌, inl, inr, refl, sym,
  ◌∙◌, arith, Bool-cases, Result-cases, ok,
}
use sdkwork_web_framework.Base.Text.{Str, lit, str_eq, ends_with, strip_prefix, starts_with}
use sdkwork_web_framework.Base.Text.Laws.{str_eq_sound}
use sdkwork_web_framework.Base.Text.Ops.{strip_suffix}
use sdkwork_web_framework.Http.{HttpLibrary}
use sdkwork_web_framework.Security.{
  CorsPolicy, development_private_network_http_origin, development_private_network_https_origin,
}
use sdkwork_web_framework.Security.ConsoleHosts.{matches}
use sdkwork_web_framework.Security.Cors.{
  validate_for_production, validate_hosts_option, allows_origin, origin_matches_allowed,
  matches_loopback, matches_app_authority,
}

strip_suffix-ends_with : (t s : Str) → ends_with t s ≡ false → strip_suffix t s ≡ none
unfolding strip_suffix ends_with
strip_suffix-ends_with t [] h = rw h refl
strip_suffix-ends_with t (c ∷ s) h = elim (Bool-cases (str_eq t (c ∷ s))) [
  | inl whole ↦ cc (rw (ends_with, whole) at h)
  | inr part ↦ rw (strip_suffix, part, strip_suffix-ends_with t s (rw (ends_with, part) at h)) refl
]

strip_prefix-starts_with : (t s : Str) → starts_with t s ≡ false → strip_prefix t s ≡ none
unfolding strip_prefix starts_with
strip_prefix-starts_with [] s h = cc h
strip_prefix-starts_with (c ∷ t) [] h = refl
strip_prefix-starts_with (c ∷ t) (d ∷ s) h = ground (arith, strip_prefix-starts_with t s)

http_marker : ends_with (lit ":*") development_private_network_http_origin ≡ true
unfolding ends_with lit str_eq development_private_network_http_origin
http_marker = refl

https_marker : ends_with (lit ":*") development_private_network_https_origin ≡ true
unfolding ends_with lit str_eq development_private_network_https_origin
https_marker = refl

not_marker :
    (allowed marker : Str)
    → ends_with (lit ":*") allowed ≡ false
    → ends_with (lit ":*") marker ≡ true
    → str_eq allowed marker ≡ false
not_marker allowed marker h k = elim (Bool-cases (str_eq allowed marker)) [
  | inl same ↦
      let e : allowed ≡ marker = str_eq_sound allowed marker same in
      let clash : false ≡ true = sym (rw e at h) ∙ k in cc clash
  | inr other ↦ other
]

app_authority-other :
    (prefix origin : Str)
    → starts_with prefix origin ≡ false
    → matches_app_authority prefix origin ≡ false
unfolding matches_app_authority
app_authority-other prefix origin h =
    rw (matches_app_authority, strip_prefix-starts_with prefix origin h) refl

loopback-exact :
    (allowed origin : Str)
    → ends_with (lit ":*") allowed ≡ false
    → matches_loopback allowed origin ≡ false
unfolding matches_loopback
loopback-exact allowed origin h =
    rw (matches_loopback, strip_suffix-ends_with (lit ":*") allowed h) refl

if_or : (a b : Bool) → (if a then true else b) ≡ (a || b)
if_or true b = refl
if_or false b = refl

production_facts :
    (policy : CorsPolicy)
    → validate_for_production policy ≡ ok tt
    → (policy.allow_all_origins ≡ false)
      × (any (λ entry. ends_with (lit ":*") entry) policy.allowed_origins ≡ false)
unfolding validate_for_production
production_facts policy valid = elim (Bool-cases policy.allow_all_origins) [
  | inl all_origins ↦ cc (rw (validate_for_production, all_origins) at valid)
  | inr closed ↦ elim (Result-cases (validate_hosts_option policy.registered_console_hosts)) [
    | inr (fault, bad) ↦ cc (rw (validate_for_production, closed, bad) at valid)
    | inl (u, good) ↦
        elim (Bool-cases (any (λ entry. ends_with (lit ":*") entry) policy.allowed_origins)) [
          | inl wild ↦ cc (rw (validate_for_production, closed, good, wild) at valid)
          | inr exact ↦ (closed, exact)
        ]
  ]
]

module _ (library : HttpLibrary) (origin : Str) where
  -- an entry without the port wildcard matches itself only, but for the two schemes of shells
  entry-exact :
      (allowed : Str)
      → ends_with (lit ":*") allowed ≡ false
      → starts_with (lit "app://") origin ≡ false
      → starts_with (lit "tauri://") origin ≡ false
      → origin_matches_allowed library allowed origin ≡ str_eq allowed origin
  unfolding origin_matches_allowed
  entry-exact allowed wildcard app tauri =
      rw
        (
          not_marker allowed development_private_network_http_origin wildcard http_marker,
          not_marker allowed development_private_network_https_origin wildcard https_marker,
          app_authority-other (lit "app://") origin app,
          app_authority-other (lit "tauri://") origin tauri,
          loopback-exact allowed origin wildcard,
        )
        (ground arith)

  entries-exact :
      (entries : List Str)
      → any (λ entry. ends_with (lit ":*") entry) entries ≡ false
      → starts_with (lit "app://") origin ≡ false
      → starts_with (lit "tauri://") origin ≡ false
      → any (λ allowed. origin_matches_allowed library allowed origin) entries
        ≡ any (λ allowed. str_eq allowed origin) entries
  entries-exact [] h app tauri = refl
  entries-exact (entry ∷ entries) h app tauri =
      ground (arith, entry-exact entry, entries-exact entries)

  -- A policy that passes the production check admits a web origin, one of another scheme than app
  -- and tauri, exactly if it lists that very text or its host pattern matches: no wildcard, marker
  -- or switch of the development policies has an effect.
  pub production_origins-exact :
      (policy : CorsPolicy)
      → validate_for_production policy ≡ ok tt
      → starts_with (lit "app://") origin ≡ false
      → starts_with (lit "tauri://") origin ≡ false
      → allows_origin library policy origin ≡ (
          any (λ allowed. str_eq allowed origin) policy.allowed_origins
          || elim policy.registered_console_hosts [
            | none ↦ false
            | some hosts ↦ matches hosts (library.parse_uri origin)
          ])
  unfolding validate_for_production allows_origin
  production_origins-exact policy valid app tauri =
      let (closed, exact) = production_facts policy valid in
      rw (allows_origin, closed, entries-exact policy.allowed_origins exact app tauri)
        (if_or (any (λ allowed. str_eq allowed origin) policy.allowed_origins) _)
