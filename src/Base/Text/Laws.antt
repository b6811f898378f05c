-- ===== src/Base/Text/Laws.antt =====
-- Laws of the operations on texts.
use Prim.Native.Nat.{ℕ}
use mathlib.Core.Path.{◌≡◌, refl, sym, ap, ◌∙◌}
use mathlib.Core.Logic.{◌↔◌, inl, inr}
use mathlib.Core.Option.{none, some}
use mathlib.Core.Bool.{Bool, true, false, ◌&&◌}
use mathlib.Core.List.{[], ◌∷◌, ◌++◌}
use native.Mathlib.Omega.{arith}
use sdkwork_web_framework.Base.Tests.{Bool-cases, ◌==◌, ==_iff, and_iff}
use sdkwork_web_framework.Base.Lists.{All}
use sdkwork_web_framework.Base.Text.{
  Str, str_eq, trim_start, trim_end, trim_matches, trim, is_whitespace, starts_with, ends_with,
  split_once, contains,
}

pub str_eq_sound : (s t : Str) → str_eq s t ≡ true → s ≡ t
unfolding str_eq
str_eq_sound [] [] h = refl
str_eq_sound [] (d ∷ t) h = cc
str_eq_sound (c ∷ s) [] h = cc
str_eq_sound (c ∷ s) (d ∷ t) h = ground (arith, str_eq_sound s t)

pub str_eq_refl : (s : Str) → str_eq s s ≡ true
unfolding str_eq
str_eq_refl [] = refl
str_eq_refl (c ∷ s) = ground (arith, str_eq_refl s)

pub str_eq_iff : (s t : Str) → (str_eq s t ≡ true) ↔ (s ≡ t)
str_eq_iff s t = (str_eq_sound s t, λ e. rw (← e) (str_eq_refl s))

-- No character of the text passes the test.
abbrev pub Lacks : (ℕ → Bool) → Str → Type 0
Lacks p s = All (λ c. p c ≡ false) s

pub trim_start_of_Lacks : (p : ℕ → Bool) (s : Str) → Lacks p s → trim_start p s ≡ s
unfolding trim_start
trim_start_of_Lacks p [] h = refl
trim_start_of_Lacks p (c ∷ s) h = rw h.0

pub trim_end_of_Lacks : (p : ℕ → Bool) (s : Str) → Lacks p s → trim_end p s ≡ s
unfolding trim_end
trim_end_of_Lacks p [] h = refl
trim_end_of_Lacks p (c ∷ s) h = ground (arith, trim_end_of_Lacks p s h.1)

pub trim_start_idem : (p : ℕ → Bool) (s : Str) → trim_start p (trim_start p s) ≡ trim_start p s
unfolding trim_start
trim_start_idem p [] = refl
trim_start_idem p (c ∷ s) = ground (arith, trim_start_idem p s)

pub trim_end_idem : (p : ℕ → Bool) (s : Str) → trim_end p (trim_end p s) ≡ trim_end p s
unfolding trim_end
trim_end_idem p [] = refl
trim_end_idem p (c ∷ s) = ground (arith, trim_end_idem p s)

pub starts_with-append : (p s : Str) → starts_with p (p ++ s) ≡ true
unfolding starts_with
starts_with-append [] s = refl
starts_with-append (c ∷ p) s = ground (arith, starts_with-append p s)

pub starts_with-eq-true : (p s : Str) → starts_with p s ≡ true → (rest : Str) × (s ≡ p ++ rest)
unfolding starts_with
starts_with-eq-true [] s h = (s, refl)
starts_with-eq-true (c ∷ p) [] h = cc
starts_with-eq-true (c ∷ p) (d ∷ s) h =
    let (same, more) = (and_iff (c == d) (starts_with p s)).0 h in
    let (rest, e) = starts_with-eq-true p s more in (rest, cc ((==_iff c d).0 same))

pub ends_with-append : (t s : Str) → ends_with t (s ++ t) ≡ true
unfolding ends_with
ends_with-append [] [] = refl
ends_with-append (c ∷ t) [] = rw str_eq_refl
ends_with-append t (c ∷ s) = ground (arith, ends_with-append t s)

pub ends_with-eq-true : (t s : Str) → ends_with t s ≡ true → (front : Str) × (s ≡ front ++ t)
unfolding ends_with
ends_with-eq-true [] [] h = ([], refl)
ends_with-eq-true (c ∷ t) [] h = cc
ends_with-eq-true t (c ∷ s) h = elim (Bool-cases (str_eq t (c ∷ s))) [
  | inl same ↦ ([], sym (str_eq_sound t (c ∷ s) same))
  | inr other ↦
      let (front, e) = ends_with-eq-true t s (rw other at h) in (c ∷ front, ap (λ r. c ∷ r) e)
]

-- The text has no character `d`.
abbrev pub Avoids : ℕ → Str → Type 0
Avoids d s = Lacks (λ c. c == d) s

pub split_once_of_Avoids : (d : ℕ) (s : Str) → Avoids d s → split_once d s ≡ none
unfolding split_once
split_once_of_Avoids d [] h = refl
split_once_of_Avoids d (c ∷ s) h = ground (arith, split_once_of_Avoids d s h.1)

pub split_once-append : (d : ℕ) (a b : Str) → Avoids d a → split_once d (a ++ d ∷ b) ≡ some (a, b)
unfolding split_once
split_once-append d [] b h = ground (arith)
split_once-append d (c ∷ a) b h = ground (arith, split_once-append d a b h.1)

pub contains-Avoids : (d : ℕ) (s : Str) → Avoids d s → contains (d ∷ []) s ≡ false
unfolding contains starts_with
contains-Avoids d [] h = refl
contains-Avoids d (c ∷ s) h = ground (arith, contains-Avoids d s h.1)

-- Two texts whose first fields end at a delimiter, where neither field has the delimiter.
pub starts_with-field :
    (d : ℕ) (a b p r : Str)
    → Avoids d a
    → Avoids d b
    → starts_with (a ++ d ∷ p) (b ++ d ∷ r) ≡ (str_eq a b && starts_with p r)
unfolding starts_with str_eq
starts_with-field d [] [] p r ha hb = ground arith
starts_with-field d [] (c ∷ b) p r ha hb = ground (arith, hb.0)
starts_with-field d (c ∷ a) [] p r ha hb = ground (arith, ha.0)
starts_with-field d (c ∷ a) (e ∷ b) p r ha hb =
    ground (arith, starts_with-field d a b p r ha.1 hb.1)

pub fields_injective :
    (d : ℕ) (a b p r : Str) → Avoids d a → Avoids d b → a ++ d ∷ p ≡ b ++ d ∷ r → (a ≡ b) × (p ≡ r)
unfolding split_once
fields_injective d a b p r ha hb e =
    let split : some (a, p) ≡ some (b, r) =
      sym (split_once-append d a p ha) ∙ ap (split_once d) e ∙ split_once-append d b r hb in
    (cc split, cc split)

-- The text is empty or begins with a character that fails the test.
abbrev HeadFails : (ℕ → Bool) → Str → Type 0
HeadFails p [] = Unit
HeadFails p (c ∷ s) = p c ≡ false

HeadFails-trim_start : (p : ℕ → Bool) (s : Str) → HeadFails p (trim_start p s)
unfolding trim_start
HeadFails-trim_start p [] = tt
HeadFails-trim_start p (c ∷ s) = elim (Bool-cases (p c)) [
  | inl t ↦ rw t (HeadFails-trim_start p s)
  | inr f ↦ rw f f
]

HeadFails-trim_end : (p : ℕ → Bool) (s : Str) → HeadFails p s → HeadFails p (trim_end p s)
unfolding trim_end
HeadFails-trim_end p [] h = tt
HeadFails-trim_end p (c ∷ s) h = rw h (ground arith)

trim_start_of_HeadFails : (p : ℕ → Bool) (s : Str) → HeadFails p s → trim_start p s ≡ s
unfolding trim_start
trim_start_of_HeadFails p [] h = refl
trim_start_of_HeadFails p (c ∷ s) h = rw h

pub trim_matches_idem :
    (p : ℕ → Bool) (s : Str) → trim_matches p (trim_matches p s) ≡ trim_matches p s
unfolding trim_matches
trim_matches_idem p s =
    rw
      (trim_start_of_HeadFails p (trim_end p (trim_start p s))
        (HeadFails-trim_end p (trim_start p s) (HeadFails-trim_start p s)))
      (trim_end_idem p (trim_start p s))

pub trim_idem : (s : Str) → trim (trim s) ≡ trim s
unfolding trim
trim_idem s = trim_matches_idem is_whitespace s
