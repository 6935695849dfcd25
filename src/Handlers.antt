-- ===== src/Handlers.antt =====
-- internal/handlers: the requests on budgets, categories, expenses, links, invites and
-- collaborators, over the tables of schema.sql.
pub mod Amounts
pub mod Store
pub mod Counts
pub mod Replies
pub mod Targets
pub mod Links
pub mod Expenses
pub mod Kept
pub mod Pages
pub mod Categories
pub mod Templates
pub mod Budgets
pub mod BudgetChanges
pub mod Members
pub mod Requests
pub mod Untouched
pub mod Limits
pub mod Dependents
pub mod Coherence
pub mod Ceiling
mod Tests
