-- ===== src/Chain/Order.antt =====
-- The order in which a built chain runs its stages.
use sdkwork_web_framework.Base.{
  Bool, true, false, none, some, List, [], ◌∷◌, All, filter, length, any, ok, is_ok, ◌≡◌, ◌↔◌, refl,
  arith, Bool-cases, Option-cases, inl, inr,
}
use sdkwork_web_framework.Base.Lists.Laws.{All-map, All-zip}
use sdkwork_web_framework.Base.Text.{Str, str_eq}
use sdkwork_web_framework.Base.Text.Laws.{str_eq_iff}
use sdkwork_web_framework.Chain.{
  ChainStage, duplicate_name, str_leb, stage_leb, insert_stage, sort_stages, build,
}

str_leb_total : (s t : Str) → str_leb s t ≡ false → str_leb t s ≡ true
unfolding str_leb
str_leb_total [] t h = cc
str_leb_total (c ∷ s) [] h = refl
str_leb_total (c ∷ s) (d ∷ t) h = ground (arith, str_leb_total s t, h)

str_leb_trans : (s t u : Str) → str_leb s t ≡ true → str_leb t u ≡ true → str_leb s u ≡ true
unfolding str_leb
str_leb_trans [] t u h k = refl
str_leb_trans (c ∷ s) [] u h k = cc
str_leb_trans (c ∷ s) (d ∷ t) [] h k = cc
str_leb_trans (c ∷ s) (d ∷ t) (e ∷ u) h k = ground (arith, str_leb_trans s t u, h, k)

module _ {S : Type 0} where
  stage_leb_total : (a b : ChainStage S) → stage_leb a b ≡ false → stage_leb b a ≡ true
  unfolding stage_leb
  stage_leb_total a b h = ground (arith, str_leb_total a.name b.name, h)

  stage_leb_trans :
      (a b c : ChainStage S) → stage_leb a b ≡ true → stage_leb b c ≡ true → stage_leb a c ≡ true
  unfolding stage_leb
  stage_leb_trans a b c h k = ground (arith, str_leb_trans a.name b.name c.name, h, k)

  -- Each stage comes before all later ones in the order of the pair of its order and its name.
  abbrev pub IsOrdered : List (ChainStage S) → Type 0
  IsOrdered [] = Unit
  IsOrdered (a ∷ l) = All (λ b. stage_leb a b ≡ true) l × IsOrdered l

  -- No two stages have one name.
  abbrev pub HasDistinctNames : List (ChainStage S) → Type 0
  HasDistinctNames [] = Unit
  HasDistinctNames (a ∷ l) = All (λ b. str_eq a.name b.name ≡ false) l × HasDistinctNames l

  All-insert_stage :
      (P : ChainStage S → Type 0) (a : ChainStage S) (l : List (ChainStage S))
      → P a
      → All P l
      → All P (insert_stage a l)
  unfolding insert_stage
  All-insert_stage P a [] p h = (p, tt)
  All-insert_stage P a (b ∷ l) p h = elim (Bool-cases (stage_leb a b)) [
    | inl t ↦ rw t (p, h)
    | inr f ↦ rw f (h.0, All-insert_stage P a l p h.1)
  ]

  insert_stage-IsOrdered :
      (a : ChainStage S) (l : List (ChainStage S)) → IsOrdered l → IsOrdered (insert_stage a l)
  unfolding insert_stage
  insert_stage-IsOrdered a [] h = (tt, tt)
  insert_stage-IsOrdered a (b ∷ l) h = elim (Bool-cases (stage_leb a b)) [
    | inl t ↦ rw t ((t, All-map l (λ x k. stage_leb_trans a b x t k) h.0), h)
    | inr f ↦ rw f (
      All-insert_stage (λ x. stage_leb b x ≡ true) a l (stage_leb_total a b f) h.0,
      insert_stage-IsOrdered a l h.1,
    )
  ]

  sort_stages-IsOrdered : (l : List (ChainStage S)) → IsOrdered (sort_stages l)
  unfolding sort_stages
  sort_stages-IsOrdered [] = tt
  sort_stages-IsOrdered (a ∷ l) = insert_stage-IsOrdered a (sort_stages l) (sort_stages-IsOrdered l)

  count-insert_stage :
      (p : ChainStage S → Bool) (a : ChainStage S) (l : List (ChainStage S))
      → length (filter p (insert_stage a l)) ≡ length (filter p (a ∷ l))
  unfolding insert_stage
  count-insert_stage p a [] = refl
  count-insert_stage p a (b ∷ l) = ground (arith, count-insert_stage p a l)

  count-sort_stages :
      (p : ChainStage S → Bool) (l : List (ChainStage S))
      → length (filter p (sort_stages l)) ≡ length (filter p l)
  unfolding sort_stages
  count-sort_stages p [] = refl
  count-sort_stages p (a ∷ l) =
      ground (arith, count-insert_stage p a (sort_stages l), count-sort_stages p l)

  -- what the check of the names finds, with the names seen so far
  duplicate_name_iff :
      (seen : List Str) (l : List (ChainStage S))
      → (duplicate_name seen l ≡ none)
        ↔ (All (λ a. any (str_eq a.name) seen ≡ false) l × HasDistinctNames l)
  unfolding duplicate_name
  duplicate_name_iff seen [] = (λ h. (tt, tt), λ h. refl)
  duplicate_name_iff seen (a ∷ l) = elim (Bool-cases (any (str_eq a.name) seen)) [
    | inl dup ↦ (λ h. cc (rw (duplicate_name, dup) at h), λ h. cc (h.0.0, dup))
    | inr fresh ↦
        let rest = duplicate_name_iff (a.name ∷ seen) l in
        (
          λ h.
              let (others, distinct) = rest.0 (rw (duplicate_name, fresh) at h) in
              (
                (fresh, All-map l (λ x k. ground (arith, k)) others),
                (
                  All-map l
                      (λ x k. ground (arith, k, str_eq_iff a.name x.name, str_eq_iff x.name a.name))
                      others,
                  distinct,
                ),
              ),
          λ h.
              rw (duplicate_name, fresh)
                (rest.1 (
                  All-zip l
                      (λ x k m.
                        ground (arith, k, m, str_eq_iff a.name x.name, str_eq_iff x.name a.name))
                      h.0.1 h.1.0,
                  h.1.1,
                )),
        )
  ]

  none_seen : (l : List (ChainStage S)) → All (λ a. any (str_eq a.name) [] ≡ false) l
  none_seen [] = tt
  none_seen (a ∷ l) = (refl, none_seen l)

-- A builder with a resolver succeeds exactly when no two of its stages have one name.
pub build_iff :
    {S R : Type 0} (stages : List (ChainStage S)) (resolver : R)
    → (is_ok (build stages (some resolver)) ≡ true) ↔ HasDistinctNames stages
unfolding build
build_iff stages resolver =
    let unique = duplicate_name_iff [] stages in
    elim (Option-cases (duplicate_name [] stages)) [
      | inl free ↦ rw (build, free) (λ h. (unique.0 free).1, λ h. refl)
      | inr (name, dup) ↦ rw (build, dup) (λ h. cc h, λ h. cc (unique.1 (none_seen stages, h), dup))
    ]

-- A chain that is built runs its stages in the order of the pairs of order and name, and has the
-- stages that the builder was given, each as often.
pub build-IsOrdered :
    {S R : Type 0} (stages chain : List (ChainStage S)) (resolver kept : R)
    → build stages (some resolver) ≡ ok (chain, kept)
    → IsOrdered chain
      × ((p : ChainStage S → Bool) → length (filter p chain) ≡ length (filter p stages))
unfolding build
build-IsOrdered stages chain resolver kept e = elim (Option-cases (duplicate_name [] stages)) [
  | inl free ↦
      let same : sort_stages stages ≡ chain = cc (rw (build, free) at e) in
      rw (← same) (sort_stages-IsOrdered stages, λ p. count-sort_stages p stages)
  | inr (name, dup) ↦ cc (rw (build, dup) at e)
]
