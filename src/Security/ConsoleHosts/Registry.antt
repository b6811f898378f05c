-- ===== src/Security/ConsoleHosts/Registry.antt =====
-- What a host pattern matches.
use sdkwork_web_framework.Base.{
  Bool, true, false, not, ◌||◌, some, List, [], ◌∷◌, ◌++◌, any, find, is_empty, is_some, ◌≡◌, refl,
  sym, ◌≢◌, arith, Bool-cases, Option-cases, inl, inr, All, Any, here, there, ok,
}
use sdkwork_web_framework.Base.Lists.Laws.{any-eq-true, Any-map, find-eq-none, All-map}
use sdkwork_web_framework.Base.Text.{Str, lit, str_eq, contains, to_ascii_lowercase}
use sdkwork_web_framework.Base.Text.Laws.{str_eq_sound}
use sdkwork_web_framework.Base.Text.Ops.{strip_suffix}
use sdkwork_web_framework.Http.{Uri}
use sdkwork_web_framework.Security.ConsoleHosts.{
  RegisteredConsoleHosts, host_is_registered, matches_uri, matches, validate_hosts,
  is_registered_service_base_domain,
}

strip_suffix-eq-some : (t s front : Str) → strip_suffix t s ≡ some front → s ≡ front ++ t
unfolding strip_suffix
strip_suffix-eq-some [] [] front h = let e : [] ≡ front = cc h in rw (← e) refl
strip_suffix-eq-some (c ∷ t) [] front h = cc h
strip_suffix-eq-some t (c ∷ s) front h = elim (Bool-cases (str_eq t (c ∷ s))) [
  | inl whole ↦
      let e : [] ≡ front = cc (rw (strip_suffix, whole) at h) in
      rw (← e, str_eq_sound t (c ∷ s) whole) refl
  | inr part ↦ elim (Option-cases (strip_suffix t s)) [
    | inl absent ↦ cc (rw (strip_suffix, part, absent) at h)
    | inr (rest, found) ↦
        let e : (c ∷ rest) ≡ front = cc (rw (strip_suffix, part, found) at h) in
        rw (← e, strip_suffix-eq-some t s rest found) refl
  ]
]

-- the host is a registered label with the suffix, a dot and a base domain of the list
abbrev pub IsConsoleHost : RegisteredConsoleHosts → List Str → Str → Type 0
IsConsoleHost hosts base_domains host =
    Any
      (λ base_domain.
        Any (λ label. host ≡ (label ++ hosts.environment_suffix) ++ b'.' ∷ base_domain)
          hosts.labels)
      base_domains

host_of :
    (hosts : RegisteredConsoleHosts) (host b front label : Str)
    → strip_suffix (b'.' ∷ b) host ≡ some front
    → str_eq front (label ++ hosts.environment_suffix) ≡ true
    → host ≡ (label ++ hosts.environment_suffix) ++ b'.' ∷ b
host_of hosts host b front label found same =
    rw (← str_eq_sound front (label ++ hosts.environment_suffix) same)
      (strip_suffix-eq-some (b'.' ∷ b) host front found)

host_is_registered_sound :
    (hosts : RegisteredConsoleHosts) (host : Str) (base_domains : List Str)
    → host_is_registered hosts host base_domains ≡ true
    → IsConsoleHost hosts base_domains host
unfolding host_is_registered
host_is_registered_sound hosts host [] h = cc h
host_is_registered_sound hosts host (b ∷ bs) h =
    elim (Option-cases (strip_suffix (b'.' ∷ b) host)) [
      | inl absent ↦
          there (host_is_registered_sound hosts host bs (rw (host_is_registered, absent) at h))
      | inr (front, found) ↦ elim (Bool-cases (is_empty front || contains (lit ".") front)) [
        | inl nested ↦
            there
              (host_is_registered_sound hosts host bs (rw (host_is_registered, found, nested) at h))
        | inr single ↦
            elim (Bool-cases
              (any (λ label. str_eq front (label ++ hosts.environment_suffix)) hosts.labels)) [
                | inl registered ↦ here (
                    Any-map (λ label same. host_of hosts host b front label found same)
                      (any-eq-true _ hosts.labels registered))
                | inr other ↦ there (
                    host_is_registered_sound hosts host bs
                      (rw (host_is_registered, found, single, other) at h))
              ]
      ]
    ]

matches_uri_facts :
    (hosts : RegisteredConsoleHosts) (uri : Uri) (scheme authority : Str)
    → matches_uri hosts uri scheme authority ≡ true
    → (is_some uri.port ≡ false)
      × (is_some uri.query ≡ false)
      × (host_is_registered hosts (to_ascii_lowercase uri.host) hosts.base_domains ≡ true)
unfolding matches_uri
matches_uri_facts hosts uri scheme authority h = ground arith

matches_facts :
    (hosts : RegisteredConsoleHosts) (uri : Uri)
    → matches hosts (some uri) ≡ true
    → (is_some uri.port ≡ false)
      × (is_some uri.query ≡ false)
      × (host_is_registered hosts (to_ascii_lowercase uri.host) hosts.base_domains ≡ true)
unfolding matches
matches_facts hosts uri h =
    elim (Bool-cases
      (is_empty hosts.labels || is_empty hosts.schemes || is_empty hosts.base_domains)) [
        | inl nothing ↦ cc (rw (matches, nothing) at h)
        | inr given ↦ elim (Option-cases uri.scheme) [
          | inl absent ↦ cc (rw (matches, given, absent) at h)
          | inr (scheme, has_scheme) ↦ elim (Option-cases uri.authority) [
            | inl absent ↦ cc (rw (matches, given, has_scheme, absent) at h)
            | inr (authority, has_authority) ↦
                matches_uri_facts hosts uri scheme authority
                  (rw (matches, given, has_scheme, has_authority) at h)
          ]
        ]
      ]

not-not : (b : Bool) → not b ≡ false → b ≡ true
not-not true h = refl
not-not false h = sym h

domain_refused :
    (hosts : RegisteredConsoleHosts) (b : Str)
    → find (λ b. not (is_registered_service_base_domain b)) hosts.base_domains ≡ some b
    → validate_hosts hosts ≢ ok tt
unfolding validate_hosts
domain_refused hosts b foreign valid = ground arith

registered_domains :
    (hosts : RegisteredConsoleHosts)
    → validate_hosts hosts ≡ ok tt
    → All (λ b. is_registered_service_base_domain b ≡ true) hosts.base_domains
unfolding validate_hosts
registered_domains hosts valid =
    elim (Option-cases (find (λ b. not (is_registered_service_base_domain b)) hosts.base_domains)) [
      | inl none_foreign ↦
          All-map hosts.base_domains (λ b h. not-not (is_registered_service_base_domain b) h)
            (find-eq-none _ hosts.base_domains none_foreign)
      | inr (b, foreign) ↦ absurd (domain_refused hosts b foreign valid)
    ]

-- A pattern that passes its validation matches only origins of a registered host: the host of the
-- origin, in lower case, is one of the labels with the environment's suffix, a dot and one of the
-- registered base domains, and the origin has neither a port nor a query.
pub matches-IsConsoleHost :
    (hosts : RegisteredConsoleHosts) (uri : Uri)
    → validate_hosts hosts ≡ ok tt
    → matches hosts (some uri) ≡ true
    → IsConsoleHost hosts hosts.base_domains (to_ascii_lowercase uri.host)
      × All (λ b. is_registered_service_base_domain b ≡ true) hosts.base_domains
      × (is_some uri.port ≡ false)
      × (is_some uri.query ≡ false)
matches-IsConsoleHost hosts uri valid matched =
    let (port, query, registered) = matches_facts hosts uri matched in
    (
      host_is_registered_sound hosts (to_ascii_lowercase uri.host) hosts.base_domains registered,
      registered_domains hosts valid,
      port,
      query,
    )
