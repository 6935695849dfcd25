-- ===== src/Handlers/Links/Tidy.antt =====
-- internal/handlers/links.go: what CreateLink checks holds of the table of links after any request.
use financentury_backend.Prelude.{
  ◌<◌, ◌≡◌, refl, ◌∙◌, arith, Bool, false, List, [], ◌∷◌, ◌==◌, Bytes, Bool-cases, inl, inr,
}
use financentury_backend.Handlers.Store.{Link, exists, count, update, delete_first, discard}
use financentury_backend.Handlers.Counts.{count-discard, count-delete_first, count-update}
use financentury_backend.Handlers.Links.{into, between, clashes, max_links_per_budget}

-- Of the links from the newest on: none links a budget to itself, none is the reverse of another,
-- no target has more than ten and no target has a category twice.
abbrev pub Tidy : List Link → Type 0
Tidy [] = Unit
Tidy (l ∷ ls) =
    ((l.source_budget_id == l.target_budget_id) ≡ false)
    × (exists (between l.target_budget_id l.source_budget_id) ls ≡ false)
    × (count (into l.target_budget_id) ls < max_links_per_budget)
    × (exists (clashes l.target_budget_id l.source_category_id) ls ≡ false)
    × Tidy ls

module _ (p q : Link → Bool) where
  exists-discard : (ls : List Link) → exists p ls ≡ false → exists p (discard q ls) ≡ false
  unfolding exists discard
  exists-discard [] h = refl
  exists-discard (l ∷ ls) h = ground (arith, exists-discard ls)

  exists-delete_first :
      (ls : List Link) → exists p ls ≡ false → exists p (delete_first q ls) ≡ false
  unfolding exists delete_first
  exists-delete_first [] h = refl
  exists-delete_first (l ∷ ls) h = ground (arith, exists-delete_first ls)

pub Tidy-discard : (q : Link → Bool) (ls : List Link) → Tidy ls → Tidy (discard q ls)
unfolding discard
Tidy-discard q [] t = tt
Tidy-discard q (l ∷ ls) (a, b, c, d, t) = elim (Bool-cases (q l)) [
  | inl e ↦ rw e (Tidy-discard q ls t)
  | inr e ↦ rw e (
    a,
    exists-discard (between l.target_budget_id l.source_budget_id) q ls b,
    omega (arith, count-discard (into l.target_budget_id) q ls),
    exists-discard (clashes l.target_budget_id l.source_category_id) q ls d,
    Tidy-discard q ls t,
  )
]

pub Tidy-delete_first : (q : Link → Bool) (ls : List Link) → Tidy ls → Tidy (delete_first q ls)
unfolding delete_first
Tidy-delete_first q [] t = tt
Tidy-delete_first q (l ∷ ls) (a, b, c, d, t) = elim (Bool-cases (q l)) [
  | inl e ↦ rw e t
  | inr e ↦ rw e (
    a,
    exists-delete_first (between l.target_budget_id l.source_budget_id) q ls b,
    omega (arith, count-delete_first (into l.target_budget_id) q ls),
    exists-delete_first (clashes l.target_budget_id l.source_category_id) q ls d,
    Tidy-delete_first q ls t,
  )
]

-- The change of UpdateLink.
abbrev pub set_mode : Bytes → Link → Link
set_mode mode l = record l { filter_mode = mode }

module _ (p q : Link → Bool) (mode : Bytes) (blind : (l : Link) → p (set_mode mode l) ≡ p l) where
  exists-update : (ls : List Link) → exists p (update q (set_mode mode) ls) ≡ exists p ls
  unfolding exists update
  exists-update [] = refl
  exists-update (l ∷ ls) = ground (arith, blind l, exists-update ls)

pub Tidy-update :
    (q : Link → Bool) (mode : Bytes) (ls : List Link) → Tidy ls → Tidy (update q (set_mode mode) ls)
unfolding update
Tidy-update q mode [] t = tt
Tidy-update q mode (l ∷ ls) (a, b, c, d, t) = elim (Bool-cases (q l)) [
  | inl e ↦ rw e (a, b, c, d, t)
  | inr e ↦ rw e (
    a,
    exists-update (between l.target_budget_id l.source_budget_id) q mode (λ x. refl) ls ∙ b,
    omega (arith, count-update (into l.target_budget_id) q (set_mode mode) (λ x. refl) ls),
    exists-update (clashes l.target_budget_id l.source_category_id) q mode (λ x. refl) ls ∙ d,
    Tidy-update q mode ls t,
  )
]
