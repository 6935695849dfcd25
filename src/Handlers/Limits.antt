-- ===== src/Handlers/Limits.antt =====
-- The limits that internal/handlers puts on links, collaborators and budgets, as one invariant.
pub mod Linked
pub mod Members
pub mod Leaving
pub mod Accepting
pub mod Once
pub mod Kept
use financentury_backend.Prelude.{ℕ, ◌≤◌}
use financentury_backend.Handlers.Store.{Store, count}
use financentury_backend.Handlers.Links.Tidy.{Tidy}
use financentury_backend.Handlers.Budgets.{budget_total, max_budgets_per_user}
use financentury_backend.Handlers.Members.{count_budget_collaborators, max_collaborators_per_budget}

-- The links are tidy, no budget has more than five collaborators, and no user has more than seven
-- budgets, owned and joined.
pub record IsOrderly (s : Store) : Type 0 where
  pub tidy : Tidy s.links
  pub shared : (b : ℕ) → count_budget_collaborators b s ≤ max_collaborators_per_budget
  pub limited : (u : ℕ) → budget_total u s ≤ max_budgets_per_user
