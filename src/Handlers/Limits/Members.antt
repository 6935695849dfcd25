-- ===== src/Handlers/Limits/Members.antt =====
-- The requests that change budgets and collaborators keep the limits.
use financentury_backend.Prelude.{ℕ, ◌<◌, ◌≤◌, ◌≡◌, ◌≢◌, refl, arith, Option, none, some, ◌∷◌, ◌==◌}
use financentury_backend.Handlers.Store.{Store, Budget, count, update, delete_first, discard, owned}
use financentury_backend.Handlers.Replies.{Env, Answer, pass, ensure, given, require_user}
use financentury_backend.Handlers.Links.Tidy.{Tidy, Tidy-discard}
use financentury_backend.Handlers.Budgets.{
  kept_budget, Unicode, CreateBudgetRequest, create_budget, seeded, new_budget, with_defaults,
  enforce_user_budget_limit, budget_total, owned_by, joined_by,
}
use financentury_backend.Handlers.BudgetChanges.{
  UpdateBudgetRequest, update_budget, delete_budget, changed, drop_budget, drop_links_of, link_goes,
  made_by,
}
use financentury_backend.Handlers.Members.{count_budget_collaborators, in_budget}
use financentury_backend.Handlers.Targets.{invalidate_link_targets_cache_all}
use financentury_backend.Handlers.Limits.{IsOrderly}
use financentury_backend.Handlers.Counts.{count-discard, count-delete_first, count-update}

-- A new budget of a user with room for it.
new_budget-IsOrderly :
    (s s' : Store) (row : Budget)
    → s'.links ≡ s.links
    → s'.collaborators ≡ s.collaborators
    → s'.budgets ≡ row ∷ s.budgets
    → budget_total row.user_id s < 7
    → IsOrderly s
    → IsOrderly s'
unfolding count_budget_collaborators budget_total count
new_budget-IsOrderly s s' row l c b room i = record {
  tidy = rw l i.tidy;
  shared = λ x. rw c (i.shared x);
  limited = λ x. rw b (rw c (grind (arith, i.limited x)));
}

module _ (e : Env) (s : Store) {a : Answer} where
  create_budget-eq-pass :
      (uni : Unicode) (req : CreateBudgetRequest)
      → create_budget uni e (some req) s ≡ pass a
      → (budget_total e.user s < 7)
        × (a.store.links ≡ s.links)
        × (a.store.collaborators ≡ s.collaborators)
        × (a.store.budgets ≡ kept_budget e (new_budget e e.user (with_defaults req)) ∷ s.budgets)
  unfolding create_budget seeded enforce_user_budget_limit require_user ensure given
  create_budget-eq-pass uni req h = ground arith

  create_budget_bad : (uni : Unicode) → create_budget uni e none s ≢ pass a
  unfolding create_budget require_user ensure given
  create_budget_bad uni h = ground arith

  pub create_budget-IsOrderly :
      (uni : Unicode) (body : Option CreateBudgetRequest)
      → create_budget uni e body s ≡ pass a
      → IsOrderly s
      → IsOrderly a.store
  unfolding kept_budget
  create_budget-IsOrderly uni none h i = absurd (create_budget_bad uni h)
  create_budget-IsOrderly uni (some req) h i =
      let (room, l, c, b) = create_budget-eq-pass uni req h in
      new_budget-IsOrderly s a.store (kept_budget e (new_budget e e.user (with_defaults req))) l c b
        room i

  update_budget-eq-pass :
      (uni : Unicode) (b : ℕ) (req : UpdateBudgetRequest)
      → update_budget uni e (some b) (some req) s ≡ pass a
      → (a.store.links ≡ s.links)
        × (a.store.collaborators ≡ s.collaborators)
        × (a.store.budgets
            ≡ update (owned b e.user) (λ row. kept_budget e (changed req row)) s.budgets)
  unfolding update_budget require_user ensure given
  update_budget-eq-pass uni b req h = ground arith

  update_budget_bad :
      (uni : Unicode) (b : Option ℕ) (body : Option UpdateBudgetRequest)
      → update_budget uni e b body s ≡ pass a
      → (b ≢ none) × (body ≢ none)
  unfolding update_budget require_user ensure given
  update_budget_bad uni b body h = (λ q. ground arith, λ q. ground arith)

  delete_budget-eq-pass :
      (b : ℕ)
      → delete_budget e (some b) s ≡ pass a
      → (a.store.links ≡ discard (made_by e.user b) (discard (link_goes b s) s.links))
        × (a.store.collaborators ≡ discard (λ c. c.budget_id == b) s.collaborators)
        × (a.store.budgets ≡ delete_first (owned b e.user) s.budgets)
  unfolding delete_budget drop_budget drop_links_of invalidate_link_targets_cache_all require_user
      ensure given
  delete_budget-eq-pass b h = ground arith

  delete_budget_bad : delete_budget e none s ≢ pass a
  unfolding delete_budget require_user ensure given
  delete_budget_bad h = ground arith

-- Fewer rows, or rows of the same users.
pub smaller :
    (s s' : Store)
    → Tidy s'.links
    → ((b : ℕ) → count (in_budget b) s'.collaborators ≤ count (in_budget b) s.collaborators)
    → ((u : ℕ) → count (joined_by u) s'.collaborators ≤ count (joined_by u) s.collaborators)
    → ((u : ℕ) → count (owned_by u) s'.budgets ≤ count (owned_by u) s.budgets)
    → IsOrderly s
    → IsOrderly s'
unfolding count_budget_collaborators budget_total
smaller s s' t c j o i = record {
  tidy = t;
  shared = λ x. omega (arith, c x, i.shared x);
  limited = λ x. omega (arith, o x, j x, i.limited x);
}

changed-user_id :
    (e : Env) (req : UpdateBudgetRequest) (u : ℕ) (r : Budget)
    → owned_by u (kept_budget e (changed req r)) ≡ owned_by u r
unfolding changed kept_budget
changed-user_id e req u r = refl

pub update_budget-IsOrderly :
    (e : Env) (s : Store) {a : Answer} (uni : Unicode) (b : Option ℕ)
    (body : Option UpdateBudgetRequest)
    → update_budget uni e b body s ≡ pass a
    → IsOrderly s
    → IsOrderly a.store
update_budget-IsOrderly e s uni none body h i =
    absurd ((update_budget_bad e s uni none body h).0 refl)
update_budget-IsOrderly e s uni (some b) none h i =
    absurd ((update_budget_bad e s uni (some b) none h).1 refl)
update_budget-IsOrderly e s uni (some b) (some req) h i =
    let (l, c, r) = update_budget-eq-pass e s uni b req h in
    smaller s _ (rw l i.tidy) (λ x. rw c (omega arith)) (λ x. rw c (omega arith))
      (λ u. rw r (
        rw
          (count-update (owned_by u) (owned b e.user) (λ row. kept_budget e (changed req row))
            (changed-user_id e req u) s.budgets)
          (omega arith)))
      i

pub delete_budget-IsOrderly :
    (e : Env) (s : Store) {a : Answer} (b : Option ℕ)
    → delete_budget e b s ≡ pass a
    → IsOrderly s
    → IsOrderly a.store
delete_budget-IsOrderly e s none h i = absurd (delete_budget_bad e s h)
delete_budget-IsOrderly e s (some b) h i =
    let (l, c, r) = delete_budget-eq-pass e s b h in
    smaller s _
      (rw l (
        Tidy-discard (made_by e.user b) (discard (link_goes b s) s.links)
          (Tidy-discard (link_goes b s) s.links i.tidy)))
      (λ x. rw c (count-discard (in_budget x) (λ y. y.budget_id == b) s.collaborators))
      (λ u. rw c (count-discard (joined_by u) (λ y. y.budget_id == b) s.collaborators))
      (λ u. rw r (count-delete_first (owned_by u) (owned b e.user) s.budgets)) i
