-- ===== src/HttpCache/Matching.antt =====
-- The If-None-Match header of internal/middleware/cache.go as a list of entity tags.

use financentury_backend.Prelude.{
  ℕ, zero, suc, ◌+◌, ◌≤◌, ◌<◌, ◌≡◌, refl, inl, inr, Bool, true, false, ◌&&◌, ◌||◌, not,
  Option-cases, none, some, List, [], ◌∷◌, Bytes, bytes, bytes_discrete, ite, ◌==◌, length, take,
  arith, if◌then◌else◌,
}
use financentury_backend.Prelude.Text.{same, drop, trim_space}
use financentury_backend.HttpCache.Tags.{
  unquoted_comma_from, index_unquoted_comma, match_items, if_none_match_has,
}

-- The header's items: it is cut at the commas outside quotes.
abbrev pub grow : ℕ → List Bytes → List Bytes
grow c [] = (c ∷ []) ∷ []
grow c (x ∷ xs) = (c ∷ x) ∷ xs

unfoldable pub split : Bool → Bytes → List Bytes
split q [] = [] ∷ []
split q (c ∷ s) =
    let rest = split (if c == b'"' then not q else q) s in
    if c == b',' && not q then [] ∷ rest else grow c rest

abbrev pub holds_tag : Bytes → List Bytes → Bool
holds_tag etag [] = false
holds_tag etag (x ∷ xs) = same (trim_space x) etag || holds_tag etag xs

split_lem :
    (q : Bool) (s : Bytes)
    → split q s ≡ elim (unquoted_comma_from q s) [
      | none ↦ s ∷ []
      | some n ↦ take n s ∷ split false (drop (n + 1) s)
    ]
unfolding split unquoted_comma_from drop
split_lem q [] = refl
split_lem q (c ∷ s) = ground (arith, split_lem (if c == b'"' then not q else q) s)

length-drop : (n : ℕ) (s : Bytes) → length (drop n s) ≤ length s
unfolding drop
length-drop zero s = omega arith
length-drop (suc n) [] = omega arith
length-drop (suc n) (c ∷ s) = omega (arith, length-drop n s)

comma-shorter :
    (q : Bool) (s : Bytes) (n : ℕ)
    → unquoted_comma_from q s ≡ some n
    → length (drop (n + 1) s) < length s
unfolding unquoted_comma_from drop
comma-shorter q [] n h = cc
comma-shorter q (c ∷ s) zero h = omega (arith, length-drop zero s)
comma-shorter q (c ∷ s) (suc n) h =
    ground (arith, comma-shorter (if c == b'"' then not q else q) s n)

-- With the length as fuel the loop answers whether one of the items is the tag.
match_items_lem :
    (fuel : ℕ) (s etag : Bytes)
    → length s < fuel
    → match_items fuel s etag ≡ holds_tag etag (split false s)
unfolding match_items index_unquoted_comma
match_items_lem zero s etag h = absurd (omega arith)
match_items_lem (suc fuel) s etag h = elim (Option-cases (unquoted_comma_from false s)) [
  | inl missing ↦ ground (arith, split_lem false s)
  | inr (n, found) ↦
      let rest =
        match_items_lem fuel (drop (n + 1) s) etag (omega (arith, comma-shorter false s n found)) in
      ground (arith, split_lem false s)
]

-- The header matches a tag exactly if it is the wildcard or, cut at the commas outside quotes, has
-- an item that is the tag with white space around it; an empty header matches nothing.
pub if_none_match_has-split :
    (raw etag : Bytes)
    → if_none_match_has raw etag
      ≡ ite (bytes_discrete (trim_space raw) []) false (
          ite
            (bytes_discrete (trim_space raw) (bytes "*"))
            true
            (holds_tag etag (split false (trim_space raw))))
unfolding if_none_match_has
if_none_match_has-split raw etag =
    rw (match_items_lem (length (trim_space raw) + 1) (trim_space raw) etag (omega arith))
