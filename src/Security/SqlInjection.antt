-- ===== src/Security/SqlInjection.antt =====
-- crates/sdkwork-web-core/src/security.rs: the guard against SQL in the path, the query and the
-- headers. Percent decoding is the library percent_encoding's, an argument.
use sdkwork_web_framework.Base.{
  Bool, true, not, none, some, List, [], ◌∷◌, any, if◌then◌else◌, unwrap_or, Result, ok, err,
}
use sdkwork_web_framework.Base.Text.{Str, lit, contains, to_ascii_lowercase}
use sdkwork_web_framework.Errors.{WebFrameworkError, bad_request}
use sdkwork_web_framework.Http.{HeaderMap, HttpLibrary, Request, header_text}
use sdkwork_web_framework.Security.{SecurityPolicy}

abbrev pub core_patterns : List Str
core_patterns =
    lit "' or "
    ∷ lit "\" or "
    ∷ lit " union select "
    ∷ lit " union all select "
    ∷ lit " drop table "
    ∷ lit " truncate table "
    ∷ lit " information_schema"
    ∷ lit " sleep("
    ∷ lit " benchmark("
    ∷ lit " xp_"
    ∷ []

abbrev pub comment_patterns : List Str
comment_patterns =
    lit "'--" ∷ lit "\"--" ∷ lit " --" ∷ lit ";--" ∷ lit "#--" ∷ lit "/*" ∷ lit "*/" ∷ []

unfoldable pub contains_sql_comment_signal : Str → Bool
contains_sql_comment_signal lowered = any (λ pattern. contains pattern lowered) comment_patterns

unfoldable pub contains_sql_injection_signal : Str → Bool
unfolding contains_sql_comment_signal
contains_sql_injection_signal value =
    let lowered = to_ascii_lowercase value in
    if any (λ pattern. contains pattern lowered) core_patterns
    then true
    else contains_sql_comment_signal lowered

-- the loop that collects the texts of the inspected headers
unfoldable pub inspected_values : HeaderMap → List Str → List Str
inspected_values headers [] = []
inspected_values headers (name ∷ names) =
    let rest = inspected_values headers names in
    elim (header_text headers name) [ none ↦ rest | some value ↦ value ∷ rest ]

-- what the guard inspects of a request
unfoldable pub inspected : HttpLibrary → List Str → Request → List Str
unfolding inspected_values
inspected library names request =
    library.percent_decode request.path
    ∷ library.percent_decode (unwrap_or request.query [])
    ∷ inspected_values request.headers names

unfoldable pub validate_sql_injection :
    HttpLibrary → SecurityPolicy → Request → Result (Unit {0}) WebFrameworkError
unfolding inspected contains_sql_injection_signal
validate_sql_injection library policy request =
    if not policy.sql_injection_guard.enabled
    then ok tt
    else if any (λ value. contains_sql_injection_signal value)
        (inspected library policy.sql_injection_guard.inspected_headers request)
    then err (bad_request (lit "request contains blocked SQL injection pattern"))
    else ok tt
