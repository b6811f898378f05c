-- ===== src/Contract/Validation/Compatibility.antt =====
-- Which compatibility metadata passes `CompatibilityAuth::validate`.
use sdkwork_web_framework.Base.{
  true, false, not, ◌||◌, List, [], ◌∷◌, is_empty, is_some, any, all, find, All, Result, ok, err,
  is_ok, ◌>>◌, ◌≡◌, ◌↔◌, refl, arith, Bool-cases, inl, inr,
}
use sdkwork_web_framework.Base.Text.{Str, str_eq}
use sdkwork_web_framework.Contract.{
  CompatibilitySecurityScheme, CompatibilitySecurityRequirement, CompatibilityAuth,
}
use sdkwork_web_framework.Contract.Validation.{
  is_blank, is_kebab_byte, header_is_blank, validate_schemes, validate_names, validate_requirements,
  validate,
}

-- A scheme has a name, and a header if it is carried by one.
abbrev pub IsNamed : CompatibilitySecurityScheme → Type 0
IsNamed s = (is_blank s.name || header_is_blank s.kind) ≡ false

-- A requirement names at least one scheme, and each name is one of a scheme that is there.
abbrev pub IsResolved : List CompatibilitySecurityScheme → CompatibilitySecurityRequirement → Type 0
IsResolved schemes r =
    (is_empty r.scheme_names ≡ false)
    × All (λ name. is_some (find (λ s. str_eq s.name name) schemes) ≡ true) r.scheme_names

-- The metadata is complete.
pub record IsComplete (auth : CompatibilityAuth) : Type 0 where
  pub protocol :
      (is_empty auth.external_protocol_id || not (all is_kebab_byte auth.external_protocol_id))
      ≡ false
  pub declared : (is_empty auth.schemes || is_empty auth.requirements) ≡ false
  pub named : All IsNamed auth.schemes
  pub resolved : All (IsResolved auth.schemes) auth.requirements

any-find :
    (name : Str) (schemes : List CompatibilitySecurityScheme)
    → any (λ s. str_eq s.name name) schemes ≡ is_some (find (λ s. str_eq s.name name) schemes)
any-find name [] = refl
any-find name (s ∷ schemes) = ground (arith, any-find name schemes)

validate_schemes_iff :
    (schemes : List CompatibilitySecurityScheme)
    → (is_ok (validate_schemes schemes) ≡ true) ↔ All IsNamed schemes
unfolding validate_schemes
validate_schemes_iff [] = (λ h. tt, λ h. refl)
validate_schemes_iff (s ∷ schemes) = ground (arith, validate_schemes_iff schemes)

validate_names_iff :
    (schemes : List CompatibilitySecurityScheme) (names : List Str)
    → (is_ok (validate_names schemes names) ≡ true)
      ↔ All (λ name. is_some (find (λ s. str_eq s.name name) schemes) ≡ true) names
unfolding validate_names
validate_names_iff schemes [] = (λ h. tt, λ h. refl)
validate_names_iff schemes (name ∷ names) =
    ground (arith, validate_names_iff schemes names, any-find name schemes)

is_ok-then :
    (a b : Result (Unit {0}) Str) → (is_ok (a >> b) ≡ true) ↔ ((is_ok a ≡ true) × (is_ok b ≡ true))
is_ok-then (ok u) b = (λ h. (refl, h), λ h. h.1)
is_ok-then (err e) b = (λ h. cc h, λ h. cc (h.0))

validate_requirements_iff :
    (schemes : List CompatibilitySecurityScheme)
    (requirements : List CompatibilitySecurityRequirement)
    → (is_ok (validate_requirements schemes requirements) ≡ true)
      ↔ All (IsResolved schemes) requirements
unfolding validate_requirements
validate_requirements_iff schemes [] = (λ h. tt, λ h. refl)
validate_requirements_iff schemes (r ∷ requirements) =
    let both =
      is_ok-then (validate_names schemes r.scheme_names)
        (validate_requirements schemes requirements) in
    let names = validate_names_iff schemes r.scheme_names in
    let rest = validate_requirements_iff schemes requirements in
    elim (Bool-cases (is_empty r.scheme_names)) [
      | inl none_named ↦
          (λ h. cc (rw (validate_requirements, none_named) at h), λ h. cc (h.0.0, none_named))
      | inr some_named ↦ (
        λ h.
            let (a, b) = both.0 (rw (validate_requirements, some_named) at h) in
            ((some_named, names.0 a), rest.0 b),
        λ h. rw (validate_requirements, some_named) (both.1 (names.1 h.0.1, rest.1 h.1)),
      )
    ]

-- Compatibility metadata is accepted exactly when it is complete: the protocol has an identifier
-- in kebab case, schemes and requirements are declared, each scheme has a name and its header, and
-- each requirement names schemes that are declared, at least one.
pub validate_iff : (auth : CompatibilityAuth) → (is_ok (validate auth) ≡ true) ↔ IsComplete auth
unfolding validate
validate_iff auth =
    let both =
      is_ok-then (validate_schemes auth.schemes)
        (validate_requirements auth.schemes auth.requirements) in
    let schemes = validate_schemes_iff auth.schemes in
    let requirements = validate_requirements_iff auth.schemes auth.requirements in
    elim (Bool-cases
      (is_empty auth.external_protocol_id || not (all is_kebab_byte auth.external_protocol_id))) [
        | inl bad ↦ (λ h. cc (rw (validate, bad) at h), λ h. cc (h.protocol, bad))
        | inr good ↦ elim (Bool-cases (is_empty auth.schemes || is_empty auth.requirements)) [
          | inl lacking ↦
              (λ h. cc (rw (validate, good, lacking) at h), λ h. cc (h.declared, lacking))
          | inr there ↦ (
            λ h.
                let (a, b) = both.0 (rw (validate, good, there) at h) in
                record {
                  protocol = good;
                  declared = there;
                  named = schemes.0 a;
                  resolved = requirements.0 b;
                },
            λ h. rw (validate, good, there) (both.1 (schemes.1 h.named, requirements.1 h.resolved)),
          )
        ]
      ]
