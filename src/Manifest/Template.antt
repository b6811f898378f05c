-- ===== src/Manifest/Template.antt =====
-- What a segment of a path template matches.
use mathlib.Core.List.{append_assoc}
use sdkwork_web_framework.Base.{
  ◌+◌, ◌<◌, Bool, true, false, ◌&&◌, [], ◌∷◌, ◌++◌, ◌≡◌, ◌≢◌, ◌⊎◌, inl, inr, ℕ, refl, sym, ap, ◌↔◌,
  ◌∙◌, arith, length, length-append, ltb,
}
use sdkwork_web_framework.Base.Text.{Str, str_eq, starts_with, ends_with}
use sdkwork_web_framework.Base.Text.Laws.{
  Avoids, str_eq_iff, split_once-append, split_once_of_Avoids, contains-Avoids, starts_with-append,
  starts_with-eq-true, ends_with-append, ends_with-eq-true,
}
use sdkwork_web_framework.Manifest.{is_full_parameter, template_segment_matches}

-- A segment with one placeholder between a prefix and a suffix.
abbrev pub mixed : Str → Str → Str → Str
mixed prefix name suffix = prefix ++ b'{' ∷ (name ++ b'}' ∷ suffix)

-- Some text with the prefix and the suffix around a value that is not empty.
abbrev pub Fills : Str → Str → Str → Type 0
Fills prefix suffix actual = (v : Str) × (v ≢ []) × (actual ≡ prefix ++ (v ++ suffix))

-- a prefix and a suffix that do not overlap leave a value between them
between :
    (prefix rest front suffix : Str)
    → prefix ++ rest ≡ front ++ suffix
    → length prefix + length suffix < length (prefix ++ rest)
    → (v : Str) × (v ≢ []) × (rest ≡ v ++ suffix)
between [] rest [] suffix e h = absurd (omega (arith, ap (λ (s : Str). length s) e))
between [] rest (d ∷ front) suffix e h = (d ∷ front, (λ q. cc q), e)
between (c ∷ prefix) rest [] suffix e h = absurd (omega (arith, ap (λ (s : Str). length s) e))
between (c ∷ prefix) rest (d ∷ front) suffix e h =
    between prefix rest front suffix (cc e) (omega arith)

length-nonempty : (v : Str) → v ≢ [] → 0 < length v
length-nonempty [] h = absurd (h refl)
length-nonempty (c ∷ v) h = omega arith

-- the test of the last branch of `template_segment_matches`
fits : Str → Str → Str → Bool
fits prefix suffix actual =
    ltb (length prefix + length suffix) (length actual)
    && starts_with prefix actual
    && ends_with suffix actual

fits-parts :
    (prefix suffix actual : Str)
    → fits prefix suffix actual ≡ true
    → (length prefix + length suffix < length actual)
      × (starts_with prefix actual ≡ true)
      × (ends_with suffix actual ≡ true)
unfolding fits
fits-parts prefix suffix actual h = ground arith

fits_sound :
    (prefix suffix actual : Str) → fits prefix suffix actual ≡ true → Fills prefix suffix actual
fits_sound prefix suffix actual h =
    let (room, s, t) = fits-parts prefix suffix actual h in
    let (short, start) = starts_with-eq-true prefix actual s in
    let (front, stop) = ends_with-eq-true suffix actual t in
    let (v, full, e) = between prefix short front suffix (sym start ∙ stop) (rw (← start) room) in
    (v, full, start ∙ ap (λ r. prefix ++ r) e)

fits_complete :
    (prefix suffix actual : Str) → Fills prefix suffix actual → fits prefix suffix actual ≡ true
unfolding fits
fits_complete prefix suffix actual (v, full, e) =
    let start : starts_with prefix actual ≡ true = rw e (starts_with-append prefix (v ++ suffix)) in
    let stop : ends_with suffix actual ≡ true =
      rw (e, ← append_assoc) (ends_with-append suffix (prefix ++ v)) in
    let room : length prefix + length suffix < length actual = rw e (
      omega (
        arith,
        length-append prefix (v ++ suffix),
        length-append v suffix,
        length-nonempty v full,
      )) in
    ground arith

-- Something stands beside the placeholder: a prefix, or a suffix with no closing brace.
abbrev pub IsBeside : Str → Str → Type 0
IsBeside prefix suffix = (prefix ≢ []) ⊎ ((suffix ≢ []) × Avoids b'}' suffix)

-- the last character is that of the part behind
ends_with-behind :
    (d : ℕ) (front : Str) (c : ℕ) (s : Str)
    → ends_with (d ∷ []) (front ++ c ∷ s) ≡ ends_with (d ∷ []) (c ∷ s)
unfolding ends_with str_eq
ends_with-behind d [] c s = refl
ends_with-behind d (x ∷ []) c s = ground (arith, ends_with-behind d [] c s)
ends_with-behind d (x ∷ y ∷ front) c s = ground (arith, ends_with-behind d (y ∷ front) c s)

ends_with-Avoids : (d : ℕ) (s : Str) → Avoids d s → ends_with (d ∷ []) s ≡ false
unfolding ends_with str_eq
ends_with-Avoids d [] h = refl
ends_with-Avoids d (c ∷ s) h = ground (arith, ends_with-Avoids d s h.1, h.0)

-- so the placeholder does not fill the segment
is_full_parameter-mixed :
    (prefix name suffix : Str)
    → Avoids b'{' prefix
    → IsBeside prefix suffix
    → is_full_parameter (mixed prefix name suffix) ≡ false
unfolding is_full_parameter starts_with
is_full_parameter-mixed [] name suffix hp (inl h) = absurd (h refl)
is_full_parameter-mixed (c ∷ prefix) name suffix hp (inl h) = ground (arith, hp.0)
is_full_parameter-mixed prefix name [] hp (inr h) = absurd (h.0 refl)
is_full_parameter-mixed prefix name (c ∷ suffix) hp (inr h) =
    let last = ends_with-Avoids b'}' (c ∷ suffix) h.1 in
    let inner = ends_with-behind b'}' (b'}' ∷ []) c suffix in
    let middle = ends_with-behind b'}' (b'{' ∷ name) b'}' (c ∷ suffix) in
    let outer = ends_with-behind b'}' prefix b'{' (name ++ b'}' ∷ c ∷ suffix) in
    ground (arith, last, inner, middle, outer)

-- A segment with one placeholder and something beside it matches exactly the texts that carry its
-- prefix and its suffix around a value that is not empty.
pub template_segment_matches-mixed :
    (prefix name suffix actual : Str)
    → Avoids b'{' prefix
    → Avoids b'}' name
    → Avoids b'{' suffix
    → IsBeside prefix suffix
    → (template_segment_matches (mixed prefix name suffix) actual ≡ true)
      ↔ Fills prefix suffix actual
unfolding template_segment_matches fits
template_segment_matches-mixed prefix name suffix actual hp hn hs hb =
    let hf = is_full_parameter-mixed prefix name suffix hp hb in
    let open_brace = split_once-append b'{' prefix (name ++ b'}' ∷ suffix) hp in
    let close_brace = split_once-append b'}' name suffix hn in
    let plain = contains-Avoids b'{' suffix hs in
    let same : template_segment_matches (mixed prefix name suffix) actual
        ≡ fits prefix suffix actual =
      ground (arith, hf, open_brace, close_brace, plain) in
    rw same (fits_sound prefix suffix actual, fits_complete prefix suffix actual)

-- A segment with no placeholder matches itself alone.
pub template_segment_matches-literal :
    (template actual : Str)
    → Avoids b'{' template
    → (template_segment_matches template actual ≡ true) ↔ (actual ≡ template)
unfolding template_segment_matches is_full_parameter starts_with
template_segment_matches-literal [] actual h =
    ground (arith, str_eq_iff [] actual, split_once_of_Avoids b'{' [] h)
template_segment_matches-literal (c ∷ template) actual h =
    ground (arith, str_eq_iff (c ∷ template) actual, split_once_of_Avoids b'{' (c ∷ template) h)

-- A segment that is a placeholder matches every text that is not empty.
pub template_segment_matches-parameter :
    (name actual : Str)
    → (template_segment_matches (b'{' ∷ (name ++ b'}' ∷ [])) actual ≡ true) ↔ (actual ≢ [])
unfolding template_segment_matches is_full_parameter starts_with
template_segment_matches-parameter name [] =
    ground (arith, ends_with-append (b'}' ∷ []) (b'{' ∷ name))
template_segment_matches-parameter name (c ∷ actual) =
    ground (arith, ends_with-append (b'}' ∷ []) (b'{' ∷ name))
