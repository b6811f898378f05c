-- ===== src/Manifest/Segments.antt =====
-- The segments of a path, and a grammar of paths that does not split anything.
use sdkwork_web_framework.Base.{
  false, not, List, [], ◌∷◌, ◌++◌, ◌≡◌, refl, ap, ◌∙◌, arith, filter, is_empty,
}
use sdkwork_web_framework.Base.Lists.Laws.{All-append}
use sdkwork_web_framework.Base.Text.{
  Str, split, split_from, trim_start, trim_end, trim_matches, is_slash, is_whitespace,
}
use sdkwork_web_framework.Base.Text.Laws.{Avoids, Lacks, trim_matches_idem}
use sdkwork_web_framework.Base.Text.Split.{split-cut, split-last}
use sdkwork_web_framework.Surface.Laws.{normalize_path_of_Lacks, trim_matches-slash}
use sdkwork_web_framework.Manifest.{path_segments}

-- A segment of a path.
pub record IsSegment (s : Str) : Type 0 where
  pub full : is_empty s ≡ false
  pub no_slash : Avoids b'/' s
  pub no_space : Lacks is_whitespace s

-- The text is made of these segments, with a slash or more between two of them, and any number of
-- slashes around them.
pub data Spells : Str → List Str → Type 0 where
  nothing : Spells [] []
  slash :
      {path rest : Str} {parts : List Str}
      → path ≡ b'/' ∷ rest
      → Spells rest parts
      → Spells path parts
  last : {a : Str} → IsSegment a → Spells a (a ∷ [])
  part :
      {path rest a : Str} {parts : List Str}
      → IsSegment a
      → path ≡ a ++ b'/' ∷ rest
      → Spells rest parts
      → Spells path (a ∷ parts)

-- the segments that are not empty
pieces : Str → List Str
pieces s = filter (λ t. not (is_empty t)) (split b'/' s)

-- the same, after what stands before the text
pieces_after : Str → Str → List Str
pieces_after cur s = filter (λ t. not (is_empty t)) (split_from b'/' cur s)

pieces-trim_start : (s : Str) → pieces (trim_start is_slash s) ≡ pieces s
unfolding pieces split split_from trim_start is_slash
pieces-trim_start [] = refl
pieces-trim_start (c ∷ s) = ground (arith, pieces-trim_start s)

pieces_after-trim_end : (cur s : Str) → pieces_after cur (trim_end is_slash s) ≡ pieces_after cur s
unfolding pieces_after split_from trim_end is_slash
pieces_after-trim_end cur [] = refl
pieces_after-trim_end cur (c ∷ s) =
    ground (arith, pieces_after-trim_end [] s, pieces_after-trim_end (cur ++ c ∷ []) s)

-- without white space the trimming of slashes changes no segment
path_segments-pieces : (path : Str) → Lacks is_whitespace path → path_segments path ≡ pieces path
unfolding path_segments pieces pieces_after split trim_matches
path_segments-pieces path h =
    rw
      (
        path_segments,
        normalize_path_of_Lacks path h,
        trim_matches-slash (trim_matches is_slash path),
        trim_matches_idem is_slash path,
      )
      (pieces_after-trim_end [] (trim_start is_slash path) ∙ pieces-trim_start path)

pieces-Spells : (path : Str) (parts : List Str) → Spells path parts → pieces path ≡ parts
unfolding pieces split split_from
pieces-Spells path parts nothing = refl
pieces-Spells path parts (slash e rest) = rw (e) (pieces-Spells _ parts rest)
pieces-Spells path parts (last s) = rw (split-last b'/' path s.no_slash, s.full) refl
pieces-Spells path (a ∷ parts) (part s e rest) =
    rw (e, split-cut b'/' a _ s.no_slash, s.full) (ap (λ l. a ∷ l) (pieces-Spells _ parts rest))

Lacks-Spells : (path : Str) (parts : List Str) → Spells path parts → Lacks is_whitespace path
unfolding is_whitespace
Lacks-Spells path parts nothing = tt
Lacks-Spells path parts (slash e rest) = rw e (refl, Lacks-Spells _ parts rest)
Lacks-Spells path parts (last s) = s.no_space
Lacks-Spells path (a ∷ parts) (part s e rest) = rw e (
    All-append (λ c. is_whitespace c ≡ false) a (b'/' ∷ _) s.no_space
      (refl, Lacks-Spells _ parts rest))

-- A path has the segments that it spells.
pub path_segments-Spells :
    (path : Str) (parts : List Str) → Spells path parts → path_segments path ≡ parts
path_segments-Spells path parts h =
    path_segments-pieces path (Lacks-Spells path parts h) ∙ pieces-Spells path parts h
