-- ===== src/Handlers/Dependents.antt =====
-- internal/handlers: the budgets that show a deleted category, and a budget with a NaN.
use financentury_backend.Prelude.{
  ℕ, ◌≡◌, refl, ap, ◌∙◌, arith, true, false, none, some, List, [], ◌∷◌, ◌==◌, All, ℕ_discrete,
  Bool-cases, inl, inr,
}
use financentury_backend.Prelude.Maps.{find, assign}
use financentury_backend.Handlers.Amounts.{
  Amount, nan, finite, infinite, nothing, exceeds, plus, plus-nan,
}
use financentury_backend.Handlers.Store.{Store, Link, discard}
use financentury_backend.Handlers.Replies.{
  Env, Answer, Event, pass, ensure, given, require_user, invalidate, send, category_deleted,
  category_created, the_category, http_status, encodes,
}
use financentury_backend.Handlers.Targets.{
  announce, fetch_target_budget_ids, load_targets, targets_of, ids_or_none,
}
use financentury_backend.Handlers.Expenses.{told}
use financentury_backend.Handlers.Kept.{told-categories}
use financentury_backend.Handlers.Categories.{
  delete_category, drop_category, CreateCategoryRequest, create_category, new_category,
  kept_category, check_allocation,
}

-- A link from the budget is a link of the category.
abbrev pub Through : ℕ → ℕ → Link → Type 0
Through b k l = (l.source_budget_id == b) ≡ true → (l.source_category_id == k) ≡ true

no_targets :
    (b k : ℕ) (ls : List Link)
    → All (Through b k) ls
    → targets_of b (discard (λ l. l.source_category_id == k) ls) ≡ []
unfolding targets_of discard
no_targets b k [] h = refl
no_targets b k (l ∷ ls) (t, h) = elim (Bool-cases (l.source_category_id == k)) [
  | inl c ↦ rw c (no_targets b k ls h)
  | inr c ↦ elim (Bool-cases (l.source_budget_id == b)) [
    | inl d ↦ absurd (ground (arith, t d))
    | inr d ↦ rw c (rw d (no_targets b k ls h))
  ]
]

-- Without targets and without an entry nobody else is told.
announce_alone :
    (e : Env) (b : ℕ) (event : Event) (s : Store)
    → find ℕ_discrete b s.link_targets ≡ none
    → targets_of b s.links ≡ []
    → (announce e b event s).1 ≡ invalidate b ∷ send b event ∷ []
unfolding announce fetch_target_budget_ids load_targets ids_or_none find assign
announce_alone e b event s f t = grind arith

drop_category-link_targets :
    (k b : ℕ) (s : Store) → (drop_category k b s).link_targets ≡ s.link_targets
unfolding drop_category
drop_category-link_targets k b s = refl

drop_category-links :
    (k b : ℕ) (s : Store)
    → (drop_category k b s).links ≡ discard (λ l. l.source_category_id == k) s.links
unfolding drop_category
drop_category-links k b s = refl

delete_category-effects :
    (e : Env) (b k : ℕ) (s : Store) {a : Answer}
    → delete_category e (some b) (some k) s ≡ pass a
    → a.effects ≡ (announce e b category_deleted (drop_category k b s)).1
unfolding delete_category told require_user ensure given
delete_category-effects e b k s h = ground arith

-- Where every link from a budget is of one category, and no entry of the cache names the budget, the
-- deletion of the category is told to the budget alone: no budget that shows the category is
-- invalidated or notified.
pub delete_category-alone :
    (e : Env) (b k : ℕ) (s : Store) {a : Answer}
    → delete_category e (some b) (some k) s ≡ pass a
    → find ℕ_discrete b s.link_targets ≡ none
    → All (Through b k) s.links
    → a.effects ≡ invalidate b ∷ send b category_deleted ∷ []
delete_category-alone e b k s h f t =
    delete_category-effects e b k s h
    ∙ announce_alone e b category_deleted (drop_category k b s)
        (rw (drop_category-link_targets k b s) f)
        (rw (drop_category-links k b s) (no_targets b k s.links t))

-- The checks of CreateCategory pass NaN.
abbrev pub as_nan : CreateCategoryRequest → CreateCategoryRequest
as_nan req = record req { allocation_value = nan }

-- What CreateCategory answers and leaves when it is asked for NaN.
abbrev pub nan_answer : Env → ℕ → CreateCategoryRequest → Store → Answer
nan_answer e b req s =
    let row = new_category e b (as_nan req) s in
    told e b category_created 201 (the_category row)
      (record s { categories = kept_category e row ∷ s.categories })

exceeds-nan : (a : Amount) → exceeds a nan ≡ false
unfolding exceeds
exceeds-nan (finite a) = refl
exceeds-nan (infinite s) = refl
exceeds-nan nan = refl

nan-exceeds : (a : Amount) → exceeds nan a ≡ false
unfolding exceeds
nan-exceeds a = refl

sum-exceeds : (total income : Amount) → exceeds (plus total nan) income ≡ false
sum-exceeds total income = ap (λ x. exceeds x income) (plus-nan total) ∙ nan-exceeds income

create_category-nan_pass :
    (e : Env) (b : ℕ) (req : CreateCategoryRequest) (s : Store) {a : Answer}
    → create_category e (some b) (some req) s ≡ pass a
    → create_category e (some b) (some (as_nan req)) s ≡ pass (nan_answer e b req s)
unfolding create_category check_allocation require_user ensure given
create_category-nan_pass e b req s h = grind (arith, exceeds-nan nothing, nan-exceeds, sum-exceeds)

nan_answer-status :
    (e : Env) (b : ℕ) (req : CreateCategoryRequest) (s : Store)
    → http_status (nan_answer e b req s).reply ≡ 500
unfolding told http_status encodes new_category
nan_answer-status e b req s = refl

-- Where CreateCategory passes with some allocation it passes with NaN too: the row is stored, and the
-- client gets 500.
pub create_category-admits_nan :
    (e : Env) (b : ℕ) (req : CreateCategoryRequest) (s : Store) {a : Answer}
    → create_category e (some b) (some req) s ≡ pass a
    → (a' : Answer) × (create_category e (some b) (some (as_nan req)) s ≡ pass a')
      × (a'.store.categories ≡ kept_category e (new_category e b (as_nan req) s) ∷ s.categories)
      × (http_status a'.reply ≡ 500)
create_category-admits_nan e b req s h =
    let row = new_category e b (as_nan req) s in
    let s' = record s { categories = kept_category e row ∷ s.categories } in
    (
      nan_answer e b req s,
      create_category-nan_pass e b req s h,
      told-categories e b category_created 201 (the_category row) s',
      nan_answer-status e b req s,
    )
