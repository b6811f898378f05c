-- ===== src/Security/ConsoleHosts.antt =====
-- crates/sdkwork-web-core/src/registered_console_hosts.rs: the host pattern
-- `<scheme>://<label><suffix>.<base domain>`. The parser of URIs is the library http's: what it
-- answers for an origin is an argument.
pub mod Registry
use sdkwork_web_framework.Base.{
  ℕ, Bool, true, false, not, ◌&&◌, ◌||◌, ◌==◌, Option, none, some, List, [], ◌∷◌, ◌++◌, all, any,
  find, is_empty, is_some, if◌then◌else◌, Result, ok, err,
}
use sdkwork_web_framework.Http.{Uri}
use sdkwork_web_framework.Base.Text.{
  Str, lit, str_eq, contains, starts_with, ends_with, to_ascii_lowercase,
}
use sdkwork_web_framework.Base.Text.Ops.{
  eq_ignore_ascii_case, strip_suffix, is_ascii_lowercase, is_ascii_digit,
}

pub record RegisteredConsoleHosts : Type 0 where
  pub labels : List Str
  pub environment_suffix : Str
  pub schemes : List Str
  pub base_domains : List Str

unfoldable pub registered_service_base_domains : List Str
registered_service_base_domains =
    lit "sdkwork.com"
    ∷ lit "birdcoder.com"
    ∷ lit "dtupay.com"
    ∷ lit "noaper.com"
    ∷ lit "sdkwork.cn"
    ∷ lit "birdcoder.cn"
    ∷ lit "dtupay.cn"
    ∷ lit "noaper.cn"
    ∷ lit "skubc.com"
    ∷ lit "skubc.cn"
    ∷ lit "zowalk.com"
    ∷ lit "zowalk.cn"
    ∷ lit "offer86.com"
    ∷ lit "offer86.cn"
    ∷ lit "86offer.com"
    ∷ lit "86offer.cn"
    ∷ []

unfoldable pub is_registered_service_base_domain : Str → Bool
is_registered_service_base_domain domain =
    any (λ registered. eq_ignore_ascii_case registered domain) registered_service_base_domains

-- The two loops: a base domain whose label is registered.
unfoldable pub host_is_registered : RegisteredConsoleHosts → Str → List Str → Bool
host_is_registered hosts host [] = false
host_is_registered hosts host (base_domain ∷ base_domains) =
    elim (strip_suffix (b'.' ∷ base_domain) host) [
      | none ↦ host_is_registered hosts host base_domains
      | some label_with_suffix ↦
          if is_empty label_with_suffix || contains (lit ".") label_with_suffix
          then host_is_registered hosts host base_domains
          else if any (λ label. str_eq label_with_suffix (label ++ hosts.environment_suffix))
              hosts.labels
          then true
          else host_is_registered hosts host base_domains
    ]

-- the guards of `matches` on a parsed origin with a scheme and an authority
unfoldable pub matches_uri : RegisteredConsoleHosts → Uri → Str → Str → Bool
unfolding host_is_registered
matches_uri hosts uri scheme authority =
    if not (any (λ allowed. eq_ignore_ascii_case allowed scheme) hosts.schemes)
    then false
    else if contains (lit "@") authority
    then false
    else if not (is_empty uri.path || str_eq uri.path (lit "/")) || is_some uri.query
    then false
    else if is_some uri.port
    then false
    else host_is_registered hosts (to_ascii_lowercase uri.host) hosts.base_domains

-- `RegisteredConsoleHosts::matches`, for what `origin.parse::<Uri>()` answers
unfoldable pub matches : RegisteredConsoleHosts → Option Uri → Bool
unfolding matches_uri
matches hosts parsed =
    if is_empty hosts.labels || is_empty hosts.schemes || is_empty hosts.base_domains
    then false
    else elim parsed [
      | none ↦ false
      | some uri ↦ elim uri.scheme [
        | none ↦ false
        | some scheme ↦ elim uri.authority [
          | none ↦ false
          | some authority ↦ matches_uri hosts uri scheme authority
        ]
      ]
    ]

unfoldable pub is_valid_dns_label : Str → Bool
is_valid_dns_label value =
    not (is_empty value)
    && not (starts_with (lit "-") value)
    && not (ends_with (lit "-") value)
    && all (λ byte. is_ascii_lowercase byte || is_ascii_digit byte || byte == b'-') value

unfoldable pub is_valid_suffix : Str → Bool
unfolding is_valid_dns_label
is_valid_suffix [] = true
is_valid_suffix (c ∷ rest) = c == b'-' && is_valid_dns_label rest

-- Why a pattern is refused; the texts of the errors name the component at fault.
pub data HostsFault : Type 0 where
  no_label no_scheme no_base_domain : HostsFault
  bad_scheme bad_suffix bad_label bad_base_domain : Str → HostsFault

-- `RegisteredConsoleHosts::validate`
unfoldable pub validate_hosts : RegisteredConsoleHosts → Result (Unit {0}) HostsFault
unfolding is_valid_suffix
validate_hosts hosts =
    if is_empty hosts.labels
    then err no_label
    else if is_empty hosts.schemes
    then err no_scheme
    else if is_empty hosts.base_domains
    then err no_base_domain
    else elim (find
        (λ scheme.
          not
            (any (λ allowed. eq_ignore_ascii_case allowed scheme) (lit "http" ∷ lit "https" ∷ [])))
        hosts.schemes) [
          | some scheme ↦ err (bad_scheme scheme)
          | none ↦
              if not (is_valid_suffix hosts.environment_suffix)
              then err (bad_suffix hosts.environment_suffix)
              else elim (find (λ label. not (is_valid_dns_label label)) hosts.labels) [
                | some label ↦ err (bad_label label)
                | none ↦
                    elim (find (λ base_domain. not (is_registered_service_base_domain base_domain))
                      hosts.base_domains) [
                        | some base_domain ↦ err (bad_base_domain base_domain)
                        | none ↦ ok tt
                      ]
              ]
        ]
