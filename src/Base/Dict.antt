-- ===== src/Base/Dict.antt =====
-- Rust's `HashMap<String, V>` and `BTreeMap`: an association list whose order stands for the
-- iteration order, with the laws of lookup.
use mathlib.Core.Path.{◌≡◌, refl}
use Prim.Native.Nat.{◌≤◌}
use mathlib.Core.Bool.{Bool, true}
use mathlib.Core.Option.{Option, none, some}
use mathlib.Core.List.{List, [], ◌∷◌}
use native.Mathlib.Omega.{arith}
use sdkwork_web_framework.Base.Tests.{if◌then◌else◌}
use sdkwork_web_framework.Base.Lists.{length}
use sdkwork_web_framework.Base.Text.{Str, str_eq}
use sdkwork_web_framework.Base.Text.Laws.{str_eq_iff}

abbrev pub Dict {ℓ} : Type ℓ → Type ℓ
Dict V = List (Str × V)

module _ {ℓ} {V : Type ℓ} where
  -- `get(k)`
  unfoldable pub get : Str → Dict V → Option V
  get k [] = none
  get k ((j, v) ∷ d) = if str_eq j k then some v else get k d

  -- `insert(k, v)`
  unfoldable pub insert : Str → V → Dict V → Dict V
  insert k v [] = (k, v) ∷ []
  insert k v ((j, w) ∷ d) =
      let rest = insert k v d in if str_eq j k then (k, v) ∷ d else (j, w) ∷ rest

  -- `remove(k)`
  unfoldable pub remove : Str → Dict V → Dict V
  remove k [] = []
  remove k ((j, w) ∷ d) = let rest = remove k d in if str_eq j k then rest else (j, w) ∷ rest

  -- `retain(|k, v| keep(k, v))`
  unfoldable pub retain : (Str → V → Bool) → Dict V → Dict V
  retain keep [] = []
  retain keep ((j, w) ∷ d) = let rest = retain keep d in if keep j w then (j, w) ∷ rest else rest

  pub get-insert :
      (k j : Str) (v : V) (d : Dict V)
      → get j (insert k v d) ≡ (if str_eq k j then some v else get j d)
  unfolding get insert
  get-insert k j v [] = refl
  get-insert k j v ((i, w) ∷ d) =
      ground (arith, str_eq_iff k j, str_eq_iff i k, str_eq_iff i j, get-insert k j v d)

  pub get-remove :
      (k j : Str) (d : Dict V) → get j (remove k d) ≡ (if str_eq k j then none else get j d)
  unfolding get remove
  get-remove k j [] = ground arith
  get-remove k j ((i, w) ∷ d) =
      ground (arith, str_eq_iff k j, str_eq_iff i k, str_eq_iff i j, get-remove k j d)

  -- the first entry under a key is found after a `retain` that keeps it
  pub get-retain :
      (keep : Str → V → Bool) (k : Str) (d : Dict V) (v : V)
      → get k d ≡ some v
      → keep k v ≡ true
      → get k (retain keep d) ≡ some v
  unfolding get retain
  get-retain keep k [] v h t = h
  get-retain keep k ((j, w) ∷ d) v h t = ground (arith, str_eq_iff j k, get-retain keep k d v)

  pub get-retain-none :
      (keep : Str → V → Bool) (k : Str) (d : Dict V) → get k d ≡ none → get k (retain keep d) ≡ none
  unfolding get retain
  get-retain-none keep k [] h = h
  get-retain-none keep k ((j, w) ∷ d) h = ground (arith, get-retain-none keep k d)

  pub length-retain : (keep : Str → V → Bool) (d : Dict V) → length (retain keep d) ≤ length d
  unfolding retain
  length-retain keep [] = omega arith
  length-retain keep ((k, e) ∷ d) = ground (arith, length-retain keep d)

  -- a `retain` by key
  pub get-retain-key :
      (keep : Str → Bool) (k : Str) (d : Dict V)
      → get k (retain (λ j w. keep j) d) ≡ (if keep k then get k d else none)
  unfolding get retain
  get-retain-key keep k [] = ground arith
  get-retain-key keep k ((j, w) ∷ d) = ground (arith, str_eq_iff j k, get-retain-key keep k d)
