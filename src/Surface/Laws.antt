-- ===== src/Surface/Laws.antt =====
-- Path normalisation and prefix matching.
use Prim.Native.Nat.{ℕ}
use sdkwork_web_framework.Base.{
  Bool, true, ◌&&◌, [], ◌∷◌, ◌++◌, ◌≡◌, refl, ap, ◌∙◌, ◌↔◌, ◌⊎◌, inl, inr, arith, is_empty,
  Bool-cases,
}
use sdkwork_web_framework.Base.Text.{
  Str, str_eq, trim, trim_start, trim_end, trim_matches, is_slash, is_whitespace, starts_with,
}
use sdkwork_web_framework.Base.Text.Laws.{
  Lacks, str_eq_iff, str_eq_sound, trim_start_of_Lacks, trim_end_of_Lacks, trim_matches_idem,
  starts_with-append, starts_with-eq-true,
}
use sdkwork_web_framework.Surface.{normalize_path, matches_prefix}

-- A path under a prefix: the prefix itself, or the prefix, a slash and anything.
abbrev pub IsUnder : Str → Str → Type 0
IsUnder path prefix = (path ≡ prefix) ⊎ ((rest : Str) × (path ≡ prefix ++ b'/' ∷ rest))

slash_append : (s rest : Str) → (s ++ b'/' ∷ []) ++ rest ≡ s ++ b'/' ∷ rest
slash_append [] rest = refl
slash_append (c ∷ s) rest = ap (λ r. c ∷ r) (slash_append s rest)

-- `matches_prefix` holds exactly when the path lies under the normalised prefix, at a slash: a
-- prefix /v1 covers /v1 and /v1/x, and never /v1beta.
pub matches_prefix_iff :
    (path prefix : Str) → (matches_prefix path prefix ≡ true) ↔ IsUnder path (normalize_path prefix)
unfolding matches_prefix
matches_prefix_iff path prefix =
    let p = normalize_path prefix in
    (
      λ h. elim (Bool-cases (str_eq path p)) [
        | inl same ↦ inl (str_eq_sound path p same)
        | inr other ↦
            let (rest, e) = starts_with-eq-true (p ++ b'/' ∷ []) path (ground arith) in
            inr (rest, e ∙ slash_append p rest)
      ],
      λ u. elim u [
        | inl e ↦ ground (arith, str_eq_iff path p)
        | inr (rest, e) ↦
            let t : starts_with (p ++ b'/' ∷ []) path ≡ true =
              (rw (e, ← slash_append p rest) (starts_with-append (p ++ b'/' ∷ []) rest)) in
            ground arith
      ],
    )

Lacks-trim_start : (p q : ℕ → Bool) (s : Str) → Lacks q s → Lacks q (trim_start p s)
unfolding trim_start
Lacks-trim_start p q [] h = tt
Lacks-trim_start p q (c ∷ s) h = elim (Bool-cases (p c)) [
  | inl t ↦ rw t (Lacks-trim_start p q s h.1)
  | inr f ↦ rw f h
]

Lacks-trim_end : (p q : ℕ → Bool) (s : Str) → Lacks q s → Lacks q (trim_end p s)
unfolding trim_end
Lacks-trim_end p q [] h = tt
Lacks-trim_end p q (c ∷ s) h = elim (Bool-cases (is_empty (trim_end p s) && p c)) [
  | inl t ↦ rw t tt
  | inr f ↦ rw f (h.0, Lacks-trim_end p q s h.1)
]

-- trimming a text with no white space does nothing
trim_of_Lacks : (s : Str) → Lacks is_whitespace s → trim s ≡ s
unfolding trim trim_matches
trim_of_Lacks s h = rw (trim_start_of_Lacks is_whitespace s h) (trim_end_of_Lacks is_whitespace s h)

pub trim_matches-slash : (s : Str) → trim_matches is_slash (b'/' ∷ s) ≡ trim_matches is_slash s
unfolding trim_matches trim_start is_slash
trim_matches-slash s = refl

-- without white space, normalising trims the slashes and puts one in front
pub normalize_path_of_Lacks :
    (path : Str)
    → Lacks is_whitespace path
    → normalize_path path ≡ b'/' ∷ trim_matches is_slash path
unfolding normalize_path trim_matches trim_start trim_end
normalize_path_of_Lacks [] h = rw (trim_of_Lacks [] h)
normalize_path_of_Lacks (c ∷ s) h = rw (trim_of_Lacks (c ∷ s) h)

Lacks-slash :
    (s : Str) → Lacks is_whitespace s → Lacks is_whitespace (b'/' ∷ trim_matches is_slash s)
unfolding is_whitespace trim_matches
Lacks-slash s h =
    (refl, Lacks-trim_end is_slash is_whitespace _ (Lacks-trim_start is_slash is_whitespace s h))

-- A path without white space is normalised once and for all.
pub normalize_path_idem :
    (path : Str)
    → Lacks is_whitespace path
    → normalize_path (normalize_path path) ≡ normalize_path path
normalize_path_idem path h = simp (
  normalize_path_of_Lacks path h,
  normalize_path_of_Lacks (b'/' ∷ trim_matches is_slash path) (Lacks-slash path h),
  trim_matches-slash,
  trim_matches_idem,
)
