-- ===== src/Manifest/Patterns.antt =====
-- Path templates as patterns: what a route of a manifest says and what it matches.
use sdkwork_web_framework.Base.{List, [], ◌∷◌, ◌++◌, ◌≡◌, ◌≢◌}
use sdkwork_web_framework.Base.Text.{Str}
use sdkwork_web_framework.Base.Text.Laws.{Avoids}
use sdkwork_web_framework.Manifest.Template.{mixed, Fills, IsBeside}

-- What one segment of a template says: a fixed text, a placeholder, or a placeholder between a
-- prefix and a suffix.
pub data Pattern : Type 0 where
  fixed : Str → Pattern
  placeholder : Str → Pattern
  between : Str → Str → Str → Pattern

-- how it is written
unfoldable pub written : Pattern → Str
written (fixed text) = text
written (placeholder name) = b'{' ∷ (name ++ b'}' ∷ [])
written (between prefix name suffix) = mixed prefix name suffix

-- The opening brace is that of the placeholder alone, and where something stands beside it, the
-- placeholder ends with the first closing brace and does not fill the segment.
abbrev pub IsPattern : Pattern → Type 0
IsPattern (fixed text) = Avoids b'{' text
IsPattern (placeholder name) = Unit
IsPattern (between prefix name suffix) =
    Avoids b'{' prefix × Avoids b'}' name × Avoids b'{' suffix × IsBeside prefix suffix

-- What the pattern stands for.
abbrev pub Accepts : Pattern → Str → Type 0
Accepts (fixed text) actual = actual ≡ text
Accepts (placeholder name) actual = actual ≢ []
Accepts (between prefix name suffix) actual = Fills prefix suffix actual

-- as many segments as patterns, each accepted by the pattern at its place
abbrev pub AcceptsAll : List Pattern → List Str → Type 0
AcceptsAll [] [] = Unit
AcceptsAll [] (a ∷ parts) = ⊥
AcceptsAll (p ∷ patterns) [] = ⊥
AcceptsAll (p ∷ patterns) (a ∷ parts) = Accepts p a × AcceptsAll patterns parts
