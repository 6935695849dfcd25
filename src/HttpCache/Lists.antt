-- ===== src/HttpCache/Lists.antt =====
-- Headers that list entity tags, as a client sends them to internal/middleware/cache.go.
use mathlib.Core.List.{append-nil, append_assoc}
use financentury_backend.Prelude.{
  ◌≡◌, ◌≢◌, refl, sym, ap, ◌∙◌, Bool, true, false, ◌||◌, List, [], ◌∷◌, ◌++◌, map, Bytes, bytes,
  All, arith, if◌then◌else◌,
}
use financentury_backend.Prelude.Text.{same, trim_left, trim_right, trim_space}
use financentury_backend.HttpCache.Tags.{if_none_match_has}
use financentury_backend.HttpCache.Matching.{split, holds_tag, if_none_match_has-split}

-- An entity tag, weak or strong, and its text.
pub record EntityTag : Type 0 where
  pub weak : Bool
  pub opaque : Bytes

abbrev pub tag_text : EntityTag → Bytes
tag_text t =
    if t.weak then b'W' ∷ b'/' ∷ b'"' ∷ t.opaque ++ (b'"' ∷ []) else b'"' ∷ t.opaque ++ (b'"' ∷ [])

abbrev pub HasNoQuote : EntityTag → Type 0
HasNoQuote t = All (λ c. c ≢ b'"') t.opaque

-- The tags with a comma and a space between them.
unfoldable pub join_tags : EntityTag → List EntityTag → Bytes
join_tags t [] = tag_text t
join_tags t (u ∷ ts) = tag_text t ++ (b',' ∷ b' ' ∷ join_tags u ts)

abbrev pub has_text : Bytes → List EntityTag → Bool
has_text etag [] = false
has_text etag (t ∷ ts) = same (tag_text t) etag || has_text etag ts

abbrev put_before : Bytes → List Bytes → List Bytes
put_before p [] = p ∷ []
put_before p (x ∷ xs) = (p ++ x) ∷ xs

split-quoted :
    (o s : Bytes)
    → All (λ c. c ≢ b'"') o
    → split true (o ++ (b'"' ∷ s)) ≡ put_before (o ++ (b'"' ∷ [])) (split false s)
unfolding split
split-quoted [] s h = ground arith
split-quoted (c ∷ o) s (p, h) = ground (arith, split-quoted o s h)

split-tag :
    (t : EntityTag) (s : Bytes)
    → HasNoQuote t
    → split false (tag_text t ++ s) ≡ put_before (tag_text t) (split false s)
unfolding split
split-tag t s h =
    let moved = append_assoc t.opaque (b'"' ∷ []) s in
    ground (arith, moved, split-quoted t.opaque s h)

-- The items of a list of tags: the first, and the others behind a space.
abbrev spaced : EntityTag → Bytes
spaced t = b' ' ∷ tag_text t

split-join_tags :
    (t : EntityTag) (ts : List EntityTag)
    → HasNoQuote t
    → All HasNoQuote ts
    → split false (join_tags t ts) ≡ tag_text t ∷ map spaced ts
unfolding join_tags split
split-join_tags t [] h k =
    ap (split false) (sym (append-nil (tag_text t)))
    ∙ split-tag t [] h
    ∙ ap (λ x. x ∷ []) (append-nil (tag_text t))
split-join_tags t (u ∷ ts) h (k, ks) =
    split-tag t (b',' ∷ b' ' ∷ join_tags u ts) h
    ∙ ground (arith, split-join_tags u ts k ks, append-nil (tag_text t))

trim_right-quote : (s : Bytes) → trim_right (s ++ (b'"' ∷ [])) ≡ s ++ (b'"' ∷ [])
unfolding trim_right
trim_right-quote [] = refl
trim_right-quote (c ∷ []) = refl
trim_right-quote (c ∷ d ∷ s) = ground (arith, trim_right-quote (d ∷ s))

trim-tag_text : (t : EntityTag) → trim_space (tag_text t) ≡ tag_text t
unfolding trim_space trim_left trim_right
trim-tag_text t = ground (arith, trim_right-quote t.opaque)

trim-spaced : (t : EntityTag) → trim_space (spaced t) ≡ tag_text t
unfolding trim_space trim_left
trim-spaced t = trim-tag_text t

holds_tag-spaced :
    (etag : Bytes) (ts : List EntityTag) → holds_tag etag (map spaced ts) ≡ has_text etag ts
holds_tag-spaced etag [] = refl
holds_tag-spaced etag (t ∷ ts) = ground (arith, trim-spaced t, holds_tag-spaced etag ts)

trim_right-append : (s u : Bytes) → trim_right u ≡ u → u ≢ [] → trim_right (s ++ u) ≡ s ++ u
unfolding trim_right
trim_right-append [] u h n = h
trim_right-append (c ∷ s) [] h n = absurd (n refl)
trim_right-append (c ∷ []) (d ∷ u) h n = rw h
trim_right-append (c ∷ e ∷ s) (d ∷ u) h n = rw (trim_right-append (e ∷ s) (d ∷ u) h n)

trim_right-tag_text : (t : EntityTag) → trim_right (tag_text t) ≡ tag_text t
unfolding trim_right
trim_right-tag_text t = ground (arith, trim_right-quote t.opaque)

join_tags-cons : (t : EntityTag) (ts : List EntityTag) → join_tags t ts ≢ []
unfolding join_tags
join_tags-cons t [] h = ground arith
join_tags-cons t (u ∷ ts) h = ground arith

trim_right-join_tags :
    (t : EntityTag) (ts : List EntityTag) → trim_right (join_tags t ts) ≡ join_tags t ts
unfolding join_tags
trim_right-join_tags t [] = trim_right-tag_text t
trim_right-join_tags t (u ∷ ts) =
    trim_right-append (tag_text t) (b',' ∷ b' ' ∷ join_tags u ts)
      (trim_right-append (b',' ∷ b' ' ∷ []) (join_tags u ts) (trim_right-join_tags u ts)
        (join_tags-cons u ts))
      (λ h. cc)

trim_left-join_tags :
    (t : EntityTag) (ts : List EntityTag) → trim_left (join_tags t ts) ≡ join_tags t ts
unfolding join_tags trim_left
trim_left-join_tags t [] = ground arith
trim_left-join_tags t (u ∷ ts) = ground arith

trim-join_tags :
    (t : EntityTag) (ts : List EntityTag) → trim_space (join_tags t ts) ≡ join_tags t ts
unfolding trim_space
trim-join_tags t ts = ap trim_right (trim_left-join_tags t ts) ∙ trim_right-join_tags t ts

join_tags-wildcard : (t : EntityTag) (ts : List EntityTag) → join_tags t ts ≢ bytes "*"
unfolding join_tags
join_tags-wildcard t [] h = ground arith
join_tags-wildcard t (u ∷ ts) h = ground arith

-- A header that lists entity tags matches exactly the tags that it lists.
pub if_none_match_has-join_tags :
    (t : EntityTag) (ts : List EntityTag) (etag : Bytes)
    → HasNoQuote t
    → All HasNoQuote ts
    → if_none_match_has (join_tags t ts) etag ≡ has_text etag (t ∷ ts)
if_none_match_has-join_tags t ts etag h k =
    if_none_match_has-split (join_tags t ts) etag
    ∙ ground (
      arith,
      trim-join_tags t ts,
      join_tags-cons t ts,
      join_tags-wildcard t ts,
      split-join_tags t ts h k,
      trim-tag_text t,
      holds_tag-spaced etag ts,
    )
