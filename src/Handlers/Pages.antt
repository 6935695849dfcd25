-- ===== src/Handlers/Pages.antt =====
-- internal/handlers/expenses.go: the pages of a budget's expenses, and the hourly pruning.
pub mod Bounds
use financentury_backend.Prelude.{
  ℕ, suc, ◌&&◌, Option, none, some, List, [], ◌∷◌, Bytes, ltb, leb, take, drop, select,
  if◌then◌else◌,
}
use financentury_backend.Prelude.Int.{ℤ, pos}
use financentury_backend.Handlers.Store.{Store, Expense, discard, has_access}
use financentury_backend.Handlers.Replies.{
  Env, Answer, Checked, pass, ◌>>=◌, ◌>>◌, ensure, given, require_user, bad_request, not_found,
  internal, json, the_expenses,
}
use financentury_backend.Handlers.Expenses.{Calendar, counted, is_empty}

abbrev pub default_limit : ℕ
default_limit = 100

abbrev pub max_limit : ℕ
max_limit = 500

-- `n > 0`, and `n >= 0`, else the default.
unfoldable pub positive_or : ℕ → Option ℤ → ℕ
positive_or fallback (some (pos (suc n))) = suc n
positive_or fallback _ = fallback

unfoldable pub natural_or : ℕ → Option ℤ → ℕ
natural_or fallback (some (pos n)) = n
natural_or fallback _ = fallback

-- `strconv.Atoi` is a parameter; an error is `none`. A query parameter that is absent is empty.
module _ (atoi : Bytes → Option ℤ) where
  unfoldable pub number : Bytes → Option ℤ
  number v = if is_empty v then none else atoi v

  -- `parsePaginationParams`
  unfoldable pub parse_pagination_params : Bytes → Bytes → ℕ × ℕ
  unfolding number positive_or natural_or
  parse_pagination_params limit offset =
      let n = positive_or default_limit (number limit) in
      (if ltb max_limit n then max_limit else n, natural_or 0 (number offset))

-- `ORDER BY expense_date DESC`
unfoldable pub insert : Expense → List Expense → List Expense
insert x [] = x ∷ []
insert x (y ∷ ys) = if ltb x.expense_date y.expense_date then y ∷ insert x ys else x ∷ y ∷ ys

unfoldable pub by_date : List Expense → List Expense
unfolding insert
by_date [] = []
by_date (x ∷ xs) = insert x (by_date xs)

-- The rows of the query before LIMIT and OFFSET.
unfoldable pub recent : Calendar → Env → ℕ → List Expense → List Expense
unfolding by_date
recent cal e b rows =
    by_date (select (λ x. leb (cal.a_year_before e.today) x.expense_date) (select (counted b) rows))

-- `ListExpenses`
unfoldable pub list_expenses :
    (Bytes → Option ℤ) → Calendar → Env → Option ℕ → Bytes → Bytes → Store → Checked Answer
unfolding require_user given ensure has_access parse_pagination_params recent
list_expenses atoi cal e budget limit offset s = do
  u ← require_user e
  b ← given budget (bad_request "invalid budget ID")
  ensure (e.answers 0 && has_access b u s) (not_found "budget not found")
  ensure (e.answers 1) (internal "failed to fetch expenses")
  let page = parse_pagination_params atoi limit offset
  pass (record {
    store = s;
    effects = [];
    reply = json 200 (the_expenses (take (page.0) (drop (page.1) (recent cal e b s.expenses))));
  })

-- `pruneAllOldExpenses`
unfoldable pub prune_all_old_expenses : Calendar → Env → Store → Store
unfolding discard
prune_all_old_expenses cal e s =
    if e.answers 0
    then record s {
      expenses = discard (λ x. ltb x.expense_date (cal.two_years_before e.today)) s.expenses;
    }
    else s
