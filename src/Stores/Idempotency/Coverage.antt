-- ===== src/Stores/Idempotency/Coverage.antt =====
-- What the eviction loop has still to visit, against the entries that are left.
use sdkwork_web_framework.Base.{
  ℕ, ◌+◌, ◌≤◌, true, false, List, [], ◌∷◌, ◌≡◌, ◌≢◌, refl, ap, arith, if◌then◌else◌, leb, is_some,
  All, Any, here, there, Bool-cases, inl, inr,
}
use sdkwork_web_framework.Base.Lists.Laws.{All-map, All-zip}
use sdkwork_web_framework.Base.Text.{Str, str_eq}
use sdkwork_web_framework.Base.Text.Laws.{str_eq_iff, str_eq_refl}
use sdkwork_web_framework.Base.Dict
use sdkwork_web_framework.Base.Dict.{Dict, get-remove}
use sdkwork_web_framework.Stores.Idempotency.{
  MemoryIdempotencyEntry, Entries, cached, Aged, aged, insert_aged, sort_by_created,
}

-- The bytes that are cached under the key.
pub bytes_of : Str → Entries → ℕ
bytes_of k [] = 0
bytes_of k ((j, e) ∷ entries) =
    let rest = bytes_of k entries in if str_eq j k then e.payload_bytes + rest else rest

pub cached-remove :
    (k : Str) (entries : Entries)
    → cached (Dict.remove k entries) + bytes_of k entries ≡ cached entries
unfolding cached Dict.remove bytes_of
cached-remove k [] = omega arith
cached-remove k ((j, e) ∷ entries) = ground (arith, cached-remove k entries)

bytes_of-remove :
    (k j : Str) (entries : Entries)
    → bytes_of j (Dict.remove k entries) ≡ (if str_eq k j then 0 else bytes_of j entries)
unfolding Dict.remove bytes_of
bytes_of-remove k j [] = ground arith
bytes_of-remove k j ((i, e) ∷ entries) =
    ground (arith, bytes_of-remove k j entries, str_eq_iff i k, str_eq_iff i j, str_eq_iff k j)

abbrev pub Item : Type 0
Item = Str × MemoryIdempotencyEntry

-- a predicate on the items is kept by a removal, which leaves only other keys
All-remove :
    (P : Item → Type 0) (k : Str) (entries : Entries)
    → All P entries
    → All (λ (p : Item). P p × (str_eq p.0 k ≡ false)) (Dict.remove k entries)
unfolding Dict.remove
All-remove P k [] h = tt
All-remove P k ((j, e) ∷ entries) h = elim (Bool-cases (str_eq j k)) [
  | inl same ↦ rw same (All-remove P k entries h.1)
  | inr other ↦ rw other ((h.0, other), All-remove P k entries h.1)
]

-- every item's key is found
keys_found : (entries : Entries) → All (λ (p : Item). is_some (Dict.get p.0 entries) ≡ true) entries
unfolding Dict.get
keys_found [] = tt
keys_found ((k, e) ∷ entries) = (
  rw (str_eq_refl k) refl,
  All-map entries (λ (p : Item) found. ground (arith, found)) (keys_found entries),
)

-- every item's bytes are counted under its key
keys_counted :
    (entries : Entries) → All (λ (p : Item). p.1.payload_bytes ≤ bytes_of p.0 entries) entries
unfolding bytes_of
keys_counted [] = tt
keys_counted ((k, e) ∷ entries) = (
  rw (str_eq_refl k) (omega arith),
  All-map entries (λ (p : Item) counted. ground (arith, counted)) (keys_counted entries),
)

-- What is still to visit covers the entries that are left, and claims no more bytes than they hold.
pub record Covers (oldest : List Aged) (entries : Entries) : Type 0 where
  pub visited : All (λ (p : Item). Any (λ (a : Aged). a.key ≡ p.0) oldest) entries
  pub honest :
      All
        (λ (a : Aged). is_some (Dict.get a.key entries) ≡ true → a.bytes ≤ bytes_of a.key entries)
        oldest

later :
    (a : Aged) (oldest : List Aged) (k : Str)
    → Any (λ (x : Aged). x.key ≡ k) (a ∷ oldest)
    → a.key ≢ k
    → Any (λ (x : Aged). x.key ≡ k) oldest
later a oldest k (here e) ne = absurd (ne e)
later a oldest k (there h) ne = h

pub Covers-removed :
    (a : Aged) (oldest : List Aged) (entries : Entries)
    → Covers (a ∷ oldest) entries
    → Covers oldest (Dict.remove a.key entries)
Covers-removed a oldest entries c = record {
  visited =
      All-map (Dict.remove a.key entries)
        (λ (p : Item) h. later a oldest p.0 h.0 (λ e. ground (arith, str_eq_iff p.0 a.key, h.1)))
        (All-remove (λ (p : Item). Any (λ (x : Aged). x.key ≡ p.0) (a ∷ oldest)) a.key entries
          c.visited);
  honest =
      All-map oldest
        (λ (x : Aged) claim found.
          ground
            (arith, get-remove a.key x.key entries, bytes_of-remove a.key x.key entries, claim))
        c.honest.1;
}

pub Covers-missing :
    (a : Aged) (oldest : List Aged) (entries : Entries)
    → is_some (Dict.get a.key entries) ≡ false
    → Covers (a ∷ oldest) entries
    → Covers oldest entries
Covers-missing a oldest entries gone c = record {
  visited =
      All-zip entries
        (λ (p : Item) h found.
          later a oldest p.0 h (λ e. cc (gone, found, ap (λ k. is_some (Dict.get k entries)) e)))
        c.visited (keys_found entries);
  honest = c.honest.1;
}

All-insert_aged :
    (P : Aged → Type 0) (a : Aged) (l : List Aged) → P a → All P l → All P (insert_aged a l)
unfolding insert_aged
All-insert_aged P a [] p h = (p, tt)
All-insert_aged P a (b ∷ l) p h = elim (Bool-cases (leb a.created b.created)) [
  | inl t ↦ rw t (p, h)
  | inr f ↦ rw f (h.0, All-insert_aged P a l p h.1)
]

All-sort_by_created : (P : Aged → Type 0) (l : List Aged) → All P l → All P (sort_by_created l)
unfolding sort_by_created
All-sort_by_created P [] h = tt
All-sort_by_created P (a ∷ l) h =
    All-insert_aged P a (sort_by_created l) h.0 (All-sort_by_created P l h.1)

Any-insert_aged_head :
    (P : Aged → Type 0) (a : Aged) (l : List Aged) → P a → Any P (insert_aged a l)
unfolding insert_aged
Any-insert_aged_head P a [] p = here p
Any-insert_aged_head P a (b ∷ l) p = elim (Bool-cases (leb a.created b.created)) [
  | inl t ↦ rw t (here p)
  | inr f ↦ rw f (there (Any-insert_aged_head P a l p))
]

Any-insert_aged_tail :
    (P : Aged → Type 0) (a : Aged) (l : List Aged) → Any P l → Any P (insert_aged a l)
unfolding insert_aged
Any-insert_aged_tail P a [] h = elim h [ ]
Any-insert_aged_tail P a (b ∷ l) (here p) = elim (Bool-cases (leb a.created b.created)) [
  | inl t ↦ rw t (there (here p))
  | inr f ↦ rw f (here p)
]
Any-insert_aged_tail P a (b ∷ l) (there h) = elim (Bool-cases (leb a.created b.created)) [
  | inl t ↦ rw t (there (there h))
  | inr f ↦ rw f (there (Any-insert_aged_tail P a l h))
]

Any-sort_by_created : (P : Aged → Type 0) (l : List Aged) → Any P l → Any P (sort_by_created l)
unfolding sort_by_created
Any-sort_by_created P [] h = elim h [ ]
Any-sort_by_created P (a ∷ l) (here p) = Any-insert_aged_head P a (sort_by_created l) p
Any-sort_by_created P (a ∷ l) (there h) =
    Any-insert_aged_tail P a (sort_by_created l) (Any-sort_by_created P l h)

visited_aged :
    (entries : Entries) → All (λ (p : Item). Any (λ (a : Aged). a.key ≡ p.0) (aged entries)) entries
unfolding aged
visited_aged [] = tt
visited_aged ((k, e) ∷ entries) =
    (here refl, All-map entries (λ (p : Item) h. there h) (visited_aged entries))

All-aged :
    (P : Aged → Type 0) (entries : Entries)
    → All
        (λ (p : Item). P (record { key = p.0; created = p.1.created; bytes = p.1.payload_bytes }))
        entries
    → All P (aged entries)
unfolding aged
All-aged P [] h = tt
All-aged P ((k, e) ∷ entries) h = (h.0, All-aged P entries h.1)

-- The sorted vector that the eviction starts from.
pub Covers-sorted : (entries : Entries) → Covers (sort_by_created (aged entries)) entries
Covers-sorted entries = record {
  visited =
      All-map entries
        (λ (p : Item) h. Any-sort_by_created (λ (a : Aged). a.key ≡ p.0) (aged entries) h)
        (visited_aged entries);
  honest = All-sort_by_created _ (aged entries) (
      All-aged
        (λ (a : Aged). is_some (Dict.get a.key entries) ≡ true → a.bytes ≤ bytes_of a.key entries)
        entries (All-map entries (λ (p : Item) counted found. counted) (keys_counted entries)));
}
