-- ===== src/Base/Text/Split.antt =====
-- What `split` answers for texts that are put together from pieces without the separator.
use mathlib.Core.List.{[], ◌∷◌, ◌++◌, append-nil, append_assoc}
use mathlib.Core.Path.{◌≡◌}
use Prim.Native.Nat.{ℕ}
use native.Mathlib.Omega.{arith}
use sdkwork_web_framework.Base.Text.{Str, split, split_from}
use sdkwork_web_framework.Base.Text.Laws.{Avoids}

split_from-cut :
    (d : ℕ) (cur a b : Str)
    → Avoids d a
    → split_from d cur (a ++ d ∷ b) ≡ (cur ++ a) ∷ split_from d [] b
unfolding split_from
split_from-cut d cur [] b h = ground (arith, append-nil cur)
split_from-cut d cur (c ∷ a) b h =
    ground (arith, split_from-cut d (cur ++ c ∷ []) a b h.1, append_assoc cur (c ∷ []) a)

pub split-cut : (d : ℕ) (a b : Str) → Avoids d a → split d (a ++ d ∷ b) ≡ a ∷ split d b
unfolding split
split-cut d a b h = split_from-cut d [] a b h

split_whole : (d : ℕ) (cur a : Str) → Avoids d a → split_from d cur a ≡ (cur ++ a) ∷ []
unfolding split_from
split_whole d cur [] h = ground (arith, append-nil cur)
split_whole d cur (c ∷ a) h =
    ground (arith, split_whole d (cur ++ c ∷ []) a h.1, append_assoc cur (c ∷ []) a)

pub split-last : (d : ℕ) (a : Str) → Avoids d a → split d a ≡ a ∷ []
unfolding split
split-last d a h = split_whole d [] a h
