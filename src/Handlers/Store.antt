-- ===== src/Handlers/Store.antt =====
-- The tables of schema.sql that the handlers read and write, as lists of rows, the newest first,
-- and the cache of link targets. A UUID is a number, and 0 is uuid.Nil; times are numbers. An id is
-- a primary key, so a condition on it is met by one row. An amount is what a query reads of its
-- NUMERIC column as a float64. Timestamps that nothing reads are left out.
use financentury_backend.Prelude.{
  ℕ, suc, Bool, false, ◌&&◌, ◌||◌, Option, none, some, List, [], ◌∷◌, Bytes, ◌==◌, if◌then◌else◌,
}
use financentury_backend.Prelude.Int.{ℤ}
use financentury_backend.Handlers.Amounts.{Amount}

pub record Budget : Type 0 where
  pub id : ℕ
  pub user_id : ℕ
  pub name : Bytes
  pub icon : Bytes
  pub monthly_income : Amount
  pub currency : Bytes
  pub billing_period_months : ℤ
  pub billing_cutoff_day : ℤ
  pub mode : Bytes

pub record Category : Type 0 where
  pub id : ℕ
  pub budget_id : ℕ
  pub name : Bytes
  pub allocation_value : Amount
  pub icon : Bytes
  pub sort_order : ℤ

-- `expense_date` is a day's number.
pub record Expense : Type 0 where
  pub id : ℕ
  pub budget_id : ℕ
  pub category_id : ℕ
  pub amount : Amount
  pub description : Bytes
  pub expense_date : ℕ
  pub created_by : ℕ

pub record Collaborator : Type 0 where
  pub budget_id : ℕ
  pub user_id : ℕ

pub record Link : Type 0 where
  pub id : ℕ
  pub source_budget_id : ℕ
  pub target_budget_id : ℕ
  pub source_category_id : ℕ
  pub filter_mode : Bytes
  pub created_by : ℕ

pub record Invite : Type 0 where
  pub id : ℕ
  pub budget_id : ℕ
  pub invite_token : Bytes
  pub created_by : ℕ
  pub used_by : Option ℕ
  pub expires_at : ℕ

-- `linkTargetsCacheEntry`
pub record TargetsEntry : Type 0 where
  pub ids : List ℕ
  pub expires_at : ℕ

pub record Store : Type 0 where
  pub budgets : List Budget
  pub categories : List Category
  pub expenses : List Expense
  pub collaborators : List Collaborator
  pub links : List Link
  pub invites : List Invite
  pub link_targets : List (ℕ × TargetsEntry)

-- `SELECT EXISTS`, `SELECT COUNT(*)` and `DELETE` with a condition.
module _ {A : Type 0} where
  unfoldable pub exists : (A → Bool) → List A → Bool
  exists p [] = false
  exists p (x ∷ xs) = p x || exists p xs

  unfoldable pub count : (A → Bool) → List A → ℕ
  count p [] = 0
  count p (x ∷ xs) = if p x then suc (count p xs) else count p xs

  unfoldable pub discard : (A → Bool) → List A → List A
  discard p [] = []
  discard p (x ∷ xs) = if p x then discard p xs else x ∷ discard p xs

  -- The row that a condition on an id finds, and `UPDATE` of that row.
  unfoldable pub first : (A → Bool) → List A → Option A
  first p [] = none
  first p (x ∷ xs) = if p x then some x else first p xs

  unfoldable pub update : (A → Bool) → (A → A) → List A → List A
  update p f [] = []
  update p f (x ∷ xs) = if p x then f x ∷ xs else x ∷ update p f xs

  -- `DELETE` of that row.
  unfoldable pub delete_first : (A → Bool) → List A → List A
  delete_first p [] = []
  delete_first p (x ∷ xs) = if p x then xs else x ∷ delete_first p xs

-- `SELECT 1 FROM budgets WHERE id = $1 AND user_id = $2`
abbrev pub owned : ℕ → ℕ → Budget → Bool
owned b u row = row.id == b && row.user_id == u

abbrev pub joined : ℕ → ℕ → Collaborator → Bool
joined b u row = row.budget_id == b && row.user_id == u

-- `verifyBudgetOwnershipCtx`, the query.
unfoldable pub owns : ℕ → ℕ → Store → Bool
unfolding exists
owns b u s = exists (owned b u) s.budgets

-- `verifyBudgetAccessCtx`, the query.
unfoldable pub has_access : ℕ → ℕ → Store → Bool
unfolding owns exists
has_access b u s = owns b u s || exists (joined b u) s.collaborators

-- The `allocation_value`s of a budget's categories.
unfoldable pub allocations : ℕ → List Category → List Amount
allocations b [] = []
allocations b (c ∷ cs) =
    let rest = allocations b cs in if c.budget_id == b then c.allocation_value ∷ rest else rest
