-- ===== src/Tests/Pipeline.antt =====
-- The pipeline of a call at concrete inputs.
use sdkwork_web_framework.Base.Dict.{get}
use sdkwork_web_framework.Stores.RateLimit.Tiers.{resolve_rate_limit}
use sdkwork_web_framework.Base.Text.Ops.{strip_suffix}
use sdkwork_web_framework.Base.{
  ℕ, ◌≢◌, suc, true, false, not, ◌&&◌, none, some, [], ◌∷◌, ◌++◌, ◌≡◌, refl, arith, is_some,
  if◌then◌else◌, ok, err, is_ok,
}
use sdkwork_web_framework.Base.Text.{
  Str, lit, str_eq, contains, ends_with, is_slash, is_whitespace, lower_char, split, split_from,
  split_once, starts_with, strip_prefix, to_ascii_lowercase, trim, trim_end, trim_matches,
  trim_start,
}
use sdkwork_web_framework.Contract.{RouteAuth}
use sdkwork_web_framework.Errors.{
  WebFrameworkError, missing_credentials, invalid_credentials, forbidden,
}
use sdkwork_web_framework.Http.{HeaderMap}
use sdkwork_web_framework.Manifest.{
  is_full_parameter, path_segments, route_path_matches, segments_match, template_segment_matches,
}
use sdkwork_web_framework.OpenApiAuth.{
  Resolver, WebCallCredentials, default_classifier, api_key_scheme, oauth_bearer_scheme,
  detect_profile, presence,
}
use sdkwork_web_framework.Pipeline.{
  WebCallStage, WebCallInterceptor, run_before, diagnosed, authorization, audit,
}
use sdkwork_web_framework.Pipeline.Isolation.{
  tenant_isolation_stage, enforce_principal_tenant_isolation, extract_path_resource_ids,
  resource_segments, allows_cross_tenant_resource_access, tenant_mismatch, organization_mismatch,
  verify_path_resource_ids_match_principal, collect_ids, is_organization_path_param,
  is_tenant_path_param, normalize_param_name, param_name, record_segment, verify_ids,
}
use sdkwork_web_framework.Pipeline.Isolation.Anonymous.{optional_visit, optional_visit-refused}
use sdkwork_web_framework.Pipeline.Isolation.PathGuard.{is_tenant_segment, path_tenant-owned}
use sdkwork_web_framework.Pipeline.Keys.{rate_limit_key_of, concurrent_admission_scope_key}
use sdkwork_web_framework.Pipeline.Keys.Buckets.{rate_limit_key-SameKinds}
use sdkwork_web_framework.Pipeline.Limits.{
  apply_rate_limit, limit_of, window_of, aggregate_key, aggregate_limit,
}
use sdkwork_web_framework.Pipeline.Limits.Aggregate.{apply_rate_limit_iff}
use sdkwork_web_framework.Pipeline.Order.{run_before-first_failure}
use sdkwork_web_framework.Pipeline.Resolution.{
  CallRuntime, resolve_request_context, require_authenticated_context, is_surface,
}
use sdkwork_web_framework.Pipeline.Resolution.Personal.{is_anonymous_mode}
use sdkwork_web_framework.Pipeline.Resolution.Consistency.{resolve_request_context-IsConsistent}
use sdkwork_web_framework.Pipeline.State.{
  WebCallState, from_request, credentials_present, rate_limit_globally_enabled,
}
use sdkwork_web_framework.Principal.{
  WebRequestPrincipal, WebLoginScope, WebDeploymentMode, WebSubjectType, WebAuthLevel,
}
use sdkwork_web_framework.Principal.Context.{WebAuthMode, WebRequestContext}
use sdkwork_web_framework.Security.{SecurityPolicy, production_security}
use sdkwork_web_framework.Stores.Admission.{count_of}
use sdkwork_web_framework.Stores.Admission.Refinement.{
  acquire, give_back, run_store, run_spec, Implements, run_store-refines,
}
use sdkwork_web_framework.Stores.RateLimit.{check_and_record}
use sdkwork_web_framework.Surface.{WebApiSurface, WebEnvironment, normalize_path}

abbrev alice : WebRequestPrincipal
alice = record {
  tenancy = record {
    tenant_id = lit "t1";
    organization_id = some (lit "0");
    login_scope = WebLoginScope.tenant;
  };
  app = record {
    app_id = lit "shop";
    environment = WebEnvironment.prod;
    deployment_mode = WebDeploymentMode.saas;
    workspace_id = none;
    composition_id = none;
  };
  subject = record {
    user_id = lit "alice";
    session_id = some (lit "s1");
    subject_type = WebSubjectType.user;
    display_name = none;
  };
  auth = record { auth_level = WebAuthLevel.password; api_key_id = none };
  scopes = record { data_scope = []; permission_scope = lit "orders.*" ∷ [] };
}

-- A resolver that knows one pair of tokens.
abbrev resolver : Resolver
resolver = record {
  resolve_api_key = λ key. err (invalid_credentials key);
  resolve_dual_token = λ auth_token access_token.
      if str_eq auth_token (lit "login") && str_eq access_token (lit "access")
      then ok alice
      else err (invalid_credentials (lit "unknown token"));
  resolve_access_token = λ token. err (invalid_credentials token);
  resolve_oauth_bearer = λ token. err (invalid_credentials token);
  resolve_bearer_auth_token = λ token. err (invalid_credentials token);
  resolve_compatibility = λ path credentials. err (invalid_credentials path);
}

abbrev no_headers : HeaderMap
no_headers = λ name. none

abbrev runtime : CallRuntime
runtime = record {
  resolver = resolver;
  route_manifest = none;
  open_api_scheme_detector = λ credentials headers profile.
      detect_profile (api_key_scheme ∷ oauth_bearer_scheme ∷ []) profile
        (presence credentials headers);
  open_api_bearer_classifier = default_classifier;
}

abbrev no_credentials : WebCallCredentials
no_credentials = record {
  auth_token = none;
  access_token = none;
  api_key = none;
  ingress_token = none;
  oauth_bearer = none;
  agent_token = none;
}

abbrev two_tokens : WebCallCredentials
two_tokens = record no_credentials {
  auth_token = some (lit "login");
  access_token = some (lit "access");
}

-- a call of a protected route of app-api with both tokens
abbrev call : WebCallState
call =
    record (from_request (λ path. path)
      (record { method = lit "GET"; path = lit "/t/t1"; query = none; headers = no_headers })) {
        api_surface = WebApiSurface.app_api;
        route_auth = some RouteAuth.dual_token;
        credentials = two_tokens;
      }

call-resolved : (resolve_request_context call no_headers runtime).1 ≡ ok tt
unfolding resolve_request_context from_request str_eq lit is_surface
call-resolved = refl

resolve_request_context-IsConsistent_example :
    is_some (resolve_request_context call no_headers runtime).0.principal
    ≡ not (is_anonymous_mode (resolve_request_context call no_headers runtime).0.auth_mode)
resolve_request_context-IsConsistent_example =
    resolve_request_context-IsConsistent call no_headers runtime call-resolved

optional_visit-refused_example :
    (let resolved = resolve_request_context (optional_visit (lit "r1") call) no_headers runtime in
      (resolved.1 ≡ ok tt)
      × (resolved.0.auth_mode ≡ WebAuthMode.public)
      × (resolved.0.principal ≡ none)
      × (require_authenticated_context resolved.0 ≡ ok tt)
      × (tenant_isolation_stage runtime.route_manifest enforce_principal_tenant_isolation resolved.0
          ≡ err (missing_credentials (lit "authenticated principal is required"))))
optional_visit-refused_example = optional_visit-refused (lit "r1") call no_headers runtime

abbrev context : WebRequestContext
context = record {
  request_id = lit "r1";
  api_surface = WebApiSurface.app_api;
  auth_mode = WebAuthMode.dual_token;
  transport = record {
    path = lit "/t/t1";
    method = lit "GET";
    auth_token_present = true;
    access_token_present = true;
    api_key_present = false;
    ingress_token_present = false;
    oauth_bearer_present = false;
    agent_token_present = false;
  };
  principal = some alice;
  locale = none;
  client_kind = none;
  operation = none;
  trace_id = none;
  idempotency_key = none;
}

abbrev template : Str
template = lit "/t/{tenant}"

app_api-own : is_surface context.api_surface WebApiSurface.backend_api ≡ false
unfolding is_surface
app_api-own = refl

own_path-passes : verify_path_resource_ids_match_principal context template none ≡ ok tt
unfolding verify_path_resource_ids_match_principal allows_cross_tenant_resource_access
    organization_mismatch tenant_mismatch verify_ids is_surface extract_path_resource_ids
    route_path_matches segments_match path_segments split split_from trim_matches trim_end
    trim_start normalize_path trim lit is_whitespace is_slash template_segment_matches starts_with
    strip_suffix contains ends_with lower_char split_once str_eq strip_prefix to_ascii_lowercase
    is_full_parameter collect_ids is_organization_path_param is_tenant_path_param
    normalize_param_name param_name record_segment resource_segments
own_path-passes = refl

own_path-matches : route_path_matches template context.transport.path ≡ true
unfolding extract_path_resource_ids route_path_matches segments_match path_segments split split_from
    trim_matches trim_end trim_start normalize_path trim lit is_whitespace is_slash
    template_segment_matches starts_with strip_suffix contains ends_with lower_char split_once
    str_eq strip_prefix to_ascii_lowercase is_full_parameter collect_ids is_organization_path_param
    is_tenant_path_param normalize_param_name param_name record_segment resource_segments
own_path-matches = refl

own_template-ends : resource_segments template ≡ (lit "t" ∷ []) ++ lit "{tenant}" ∷ []
unfolding resource_segments split split_from trim trim_matches trim_end trim_start is_whitespace
    is_slash lit
own_template-ends = refl

own_path-ends : resource_segments context.transport.path ≡ (lit "t" ∷ []) ++ lit "t1" ∷ []
unfolding resource_segments split split_from trim trim_matches trim_end trim_start is_whitespace
    is_slash lit
own_path-ends = refl

own_template-IsTenant : is_tenant_segment (lit "{tenant}") ≡ true
unfolding is_tenant_segment param_name strip_prefix strip_suffix starts_with ends_with
    is_tenant_path_param normalize_param_name to_ascii_lowercase lower_char str_eq lit
own_template-IsTenant = refl

path_tenant-owned_example : lit "t1" ≡ alice.tenancy.tenant_id
path_tenant-owned_example =
    path_tenant-owned context template none alice (lit "t" ∷ []) [] (lit "t" ∷ []) []
      (lit "{tenant}") (lit "t1") refl app_api-own own_path-passes own_path-matches
      own_template-ends own_path-ends refl own_template-IsTenant tt

-- An interceptor that counts its runs, and one that refuses.
abbrev counting : WebCallStage → WebCallInterceptor ℕ ℕ
counting kind = record {
  name = lit "counting";
  stage = kind;
  before = λ state n. ((state, suc n), ok tt);
  after = λ state n. (suc n, ok tt);
}

abbrev refusal : WebFrameworkError
refusal = forbidden (lit "no")

abbrev refusing : WebCallInterceptor ℕ ℕ
refusing = record {
  name = lit "refusing";
  stage = authorization;
  before = λ state n. ((state, suc n), err refusal);
  after = λ state n. (suc n, ok tt);
}

one_run : (run_before (counting audit ∷ []) call 0).1 ≡ ok tt
unfolding run_before
one_run = refl

run_before-first_failure_example :
    run_before ((counting audit ∷ []) ++ refusing ∷ counting audit ∷ []) call 0 ≡ (
      (record call { before_failure = some (diagnosed refusing call refusal) }, 2),
      err (diagnosed refusing call refusal),
    )
unfolding run_before
run_before-first_failure_example =
    run_before-first_failure (counting audit ∷ []) refusing (counting audit ∷ []) call 0 refusal
      one_run refl

-- the same two headers with other values
abbrev other_tokens : WebCallCredentials
other_tokens = record no_credentials {
  auth_token = some (lit "guess-1");
  access_token = some (lit "guess-2");
}

rate_limit_key-SameKinds_example :
    (rate_limit_key_of (record call { credentials = two_tokens })
      ≡ rate_limit_key_of (record call { credentials = other_tokens }))
    × (concurrent_admission_scope_key (record call { credentials = two_tokens })
        ≡ concurrent_admission_scope_key (record call { credentials = other_tokens }))
unfolding from_request
rate_limit_key-SameKinds_example =
    rate_limit_key-SameKinds call two_tokens other_tokens refl (refl, refl, refl, refl, refl, refl)

abbrev aggregated : SecurityPolicy
aggregated = record production_security {
  rate_limit = record {
    enabled = true;
    max_requests_per_window = 120;
    window_secs = 60;
    pre_auth_rate_limit = true;
    tenant_limit_after_auth = true;
    pre_auth_aggregate_multiplier = some 10;
  };
}

limiting : rate_limit_globally_enabled aggregated call ≡ true
unfolding rate_limit_globally_enabled from_request
limiting = refl

limit_of-call : (limit_of aggregated call).max_requests ≡ 120
unfolding limit_of from_request resolve_rate_limit
limit_of-call = refl

limited : (limit_of aggregated call).max_requests ≢ 0
limited e = omega (arith, limit_of-call)

call-credentials : credentials_present call ≡ true
unfolding credentials_present
call-credentials = refl

apply_rate_limit_iff_example : is_ok (apply_rate_limit aggregated call 5 []).1 ≡ (
    is_ok
      (check_and_record
        (rate_limit_key_of call)
        (limit_of aggregated call).max_requests
        (window_of (limit_of aggregated call))
        5
        []).1
    && is_ok
        (check_and_record
          (aggregate_key call)
          (aggregate_limit (limit_of aggregated call) 10)
          (window_of (limit_of aggregated call))
          5
          []).1)
unfolding from_request
apply_rate_limit_iff_example =
    apply_rate_limit_iff aggregated call 5 10 [] limiting limited refl call-credentials refl
      (omega arith)

empty-Implements : Implements [] (λ key. 0)
unfolding count_of get
empty-Implements key = refl

run_store-refines_example :
    ((run_store (acquire (lit "a") 1 ∷ acquire (lit "a") 1 ∷ give_back (lit "a") ∷ []) []).1
      ≡ (run_spec
          (acquire (lit "a") 1 ∷ acquire (lit "a") 1 ∷ give_back (lit "a") ∷ [])
          (λ key. 0)).1)
    × Implements
        (run_store (acquire (lit "a") 1 ∷ acquire (lit "a") 1 ∷ give_back (lit "a") ∷ []) []).0
        (run_spec
          (acquire (lit "a") 1 ∷ acquire (lit "a") 1 ∷ give_back (lit "a") ∷ [])
          (λ key. 0)).0
run_store-refines_example =
    run_store-refines (acquire (lit "a") 1 ∷ acquire (lit "a") 1 ∷ give_back (lit "a") ∷ []) []
      (λ key. 0) empty-Implements
