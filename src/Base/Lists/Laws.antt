-- ===== src/Base/Lists/Laws.antt =====
-- Laws of the Boolean searches and of the predicates over lists.
use mathlib.Core.Path.{◌≡◌, refl, ap}
use mathlib.Core.Logic.{inl, inr}
use mathlib.Core.Bool.{Bool, true, false}
use mathlib.Core.Option.{none, some}
use mathlib.Core.List.{List, [], ◌∷◌, ◌++◌}
use native.Mathlib.Omega.{arith}
use sdkwork_web_framework.Base.Tests.{Bool-cases}
use sdkwork_web_framework.Base.Lists.{find, any, filter, All, Any, here, there}

module _ {ℓ} {A : Type ℓ} (p : A → Bool) where
  -- What `find` returns passes the test, and nothing before it does.
  pub find-eq-some :
      (xs : List A) {x : A}
      → find p xs ≡ some x
      → (pre : List A) × (post : List A) × (xs ≡ pre ++ x ∷ post)
        × (p x ≡ true)
        × All (λ y. p y ≡ false) pre
  find-eq-some [] h = cc
  find-eq-some (y ∷ xs) {x} h = elim (Bool-cases (p y)) [
    | inl yes_y ↦ ([], xs, ground arith, ground arith, tt)
    | inr no_y ↦
        let (pre, post, e, t, none_before) = find-eq-some xs (rw no_y at h) in
        (y ∷ pre, post, ap (λ l. y ∷ l) e, t, (no_y, none_before))
  ]

  pub find-eq-none : (xs : List A) → find p xs ≡ none → All (λ y. p y ≡ false) xs
  find-eq-none [] h = tt
  find-eq-none (y ∷ xs) h = ground (arith, find-eq-none xs)

  pub find-none : (xs : List A) → All (λ y. p y ≡ false) xs → find p xs ≡ none
  find-none [] h = refl
  find-none (y ∷ xs) h = rw h.0 (find-none xs h.1)

  pub find-append :
      (xs : List A) {x : A} (ys : List A)
      → All (λ y. p y ≡ false) xs
      → p x ≡ true
      → find p (xs ++ x ∷ ys) ≡ some x
  find-append [] ys h t = rw t
  find-append (y ∷ xs) ys h t = rw h.0 (find-append xs ys h.1 t)

  pub any-eq-false : (xs : List A) → any p xs ≡ false → All (λ y. p y ≡ false) xs
  any-eq-false [] h = tt
  any-eq-false (y ∷ xs) h = ground (arith, any-eq-false xs)

  pub any-false : (xs : List A) → All (λ y. p y ≡ false) xs → any p xs ≡ false
  any-false [] h = refl
  any-false (y ∷ xs) h = ground (arith, any-false xs)

  pub any-eq-true : (xs : List A) → any p xs ≡ true → Any (λ y. p y ≡ true) xs
  any-eq-true [] h = cc
  any-eq-true (y ∷ xs) h = elim (Bool-cases (p y)) [
    | inl yes_y ↦ here yes_y
    | inr no_y ↦ there (any-eq-true xs (rw no_y at h))
  ]

  pub any-of-Any : {xs : List A} → Any (λ y. p y ≡ true) xs → any p xs ≡ true
  any-of-Any (here h) = rw h
  any-of-Any (there {x} a) = ground (arith, any-of-Any a)

module _ {ℓ κ ι} {A : Type ℓ} {P : A → Type κ} {Q : A → Type ι} where
  pub All-map : (xs : List A) → ((x : A) → P x → Q x) → All P xs → All Q xs
  All-map [] f h = tt
  All-map (x ∷ xs) f h = (f x h.0, All-map xs f h.1)

  pub Any-map : {xs : List A} → ((x : A) → P x → Q x) → Any P xs → Any Q xs
  Any-map f (here h) = here (f _ h)
  Any-map f (there a) = there (Any-map f a)

module _ {ℓ κ ι θ} {A : Type ℓ} {P : A → Type κ} {Q : A → Type ι} {R : A → Type θ} where
  pub All-zip : (xs : List A) → ((x : A) → P x → Q x → R x) → All P xs → All Q xs → All R xs
  All-zip [] f h k = tt
  All-zip (x ∷ xs) f h k = (f x h.0 k.0, All-zip xs f h.1 k.1)

module _ {ℓ κ} {A : Type ℓ} (P : A → Type κ) where
  pub All-append : (xs ys : List A) → All P xs → All P ys → All P (xs ++ ys)
  All-append [] ys h k = k
  All-append (x ∷ xs) ys h k = (h.0, All-append xs ys h.1 k)

  pub All-of-append : (xs ys : List A) → All P (xs ++ ys) → All P xs × All P ys
  All-of-append [] ys h = (tt, h)
  All-of-append (x ∷ xs) ys h = let (a, b) = All-of-append xs ys h.1 in ((h.0, a), b)

  pub Any-append : (xs : List A) (x : A) (ys : List A) → P x → Any P (xs ++ x ∷ ys)
  Any-append [] x ys h = here h
  Any-append (y ∷ xs) x ys h = there (Any-append xs x ys h)

  pub All-at : {a : A} {xs : List A} → All P xs → Any (λ x. x ≡ a) xs → P a
  All-at h (here e) = rw (← e) h.0
  All-at h (there a) = All-at h.1 a

module _ {ℓ κ} {A : Type ℓ} (P : A → Type κ) (p : A → Bool) where
  pub All-filter : (xs : List A) → All P xs → All P (filter p xs)
  All-filter [] h = tt
  All-filter (x ∷ xs) h = elim (Bool-cases (p x)) [
    | inl t ↦ rw t (h.0, All-filter xs h.1)
    | inr f ↦ rw f (All-filter xs h.1)
  ]
