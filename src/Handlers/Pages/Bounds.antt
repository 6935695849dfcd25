-- ===== src/Handlers/Pages/Bounds.antt =====
-- internal/handlers/expenses.go: how long a page is, and what stands on it.
use financentury_backend.Prelude.{
  ℕ, zero, suc, ◌≤◌, ◌<◌, ◌≡◌, arith, true, Option, none, some, List, [], ◌∷◌, Bytes, ltb, leb,
  length, take, drop, select, All, All-map, length-take-le, inl, inr, Bool-cases,
}
use financentury_backend.Prelude.Int.{ℤ, pos, negsuc}
use financentury_backend.Handlers.Store.{Store, Expense, has_access}
use financentury_backend.Handlers.Replies.{
  Env, pass, ensure, given, require_user, json, the_expenses,
}
use financentury_backend.Handlers.Expenses.{Calendar, counted}
use financentury_backend.Handlers.Pages.{
  parse_pagination_params, positive_or, number, list_expenses, recent, by_date, insert, max_limit,
}

positive_or_pos : (n : ℕ) (v : Option ℤ) → 0 < n → 0 < positive_or n v
unfolding positive_or
positive_or_pos n none h = h
positive_or_pos n (some (pos zero)) h = h
positive_or_pos n (some (pos (suc m))) h = omega arith
positive_or_pos n (some (negsuc m)) h = h

-- Whatever the query says, a page has room for at least one and at most 500 expenses.
pub parse_pagination_params_bounds :
    (atoi : Bytes → Option ℤ) (limit offset : Bytes)
    → (0 < (parse_pagination_params atoi limit offset).0)
      × ((parse_pagination_params atoi limit offset).0 ≤ max_limit)
unfolding parse_pagination_params
parse_pagination_params_bounds atoi limit offset =
    ground (arith, positive_or_pos 100 (number atoi limit))

-- The rows of a page are the budget's, and a year old at most.
abbrev pub OnPage : Calendar → Env → ℕ → Expense → Type 0
OnPage cal e b x = (x.budget_id ≡ b) × (cal.a_year_before e.today ≤ x.expense_date)

-- No day before the ones in front.
abbrev pub Descending : List Expense → Type 0
Descending [] = Unit
Descending (x ∷ xs) = All (λ y. y.expense_date ≤ x.expense_date) xs × Descending xs

module _ (P : Expense → Type 0) where
  All-insert : (x : Expense) (xs : List Expense) → P x → All P xs → All P (insert x xs)
  unfolding insert
  All-insert x [] p h = (p, tt)
  All-insert x (y ∷ ys) p (q, h) = elim (Bool-cases (ltb x.expense_date y.expense_date)) [
    | inl t ↦ rw t (q, All-insert x ys p h)
    | inr t ↦ rw t (p, (q, h))
  ]

  All-by_date : (xs : List Expense) → All P xs → All P (by_date xs)
  unfolding by_date
  All-by_date [] h = h
  All-by_date (x ∷ xs) (p, h) = All-insert x (by_date xs) p (All-by_date xs h)

  All-take : (n : ℕ) (xs : List Expense) → All P xs → All P (take n xs)
  All-take zero xs h = tt
  All-take (suc n) [] h = tt
  All-take (suc n) (x ∷ xs) (p, h) = (p, All-take n xs h)

  All-drop : (n : ℕ) (xs : List Expense) → All P xs → All P (drop n xs)
  All-drop zero xs h = h
  All-drop (suc n) [] h = tt
  All-drop (suc n) (x ∷ xs) (p, h) = All-drop n xs h

-- The order is kept by each step.
Descending-insert : (x : Expense) (xs : List Expense) → Descending xs → Descending (insert x xs)
unfolding insert
Descending-insert x [] h = (tt, tt)
Descending-insert x (y ∷ ys) (below, h) = elim (Bool-cases (ltb x.expense_date y.expense_date)) [
  | inl t ↦ rw t (
    All-insert (λ z. z.expense_date ≤ y.expense_date) x ys (ground arith) below,
    Descending-insert x ys h,
  )
  | inr t ↦
      let near : y.expense_date ≤ x.expense_date = ground arith in
      rw t (
        (
          near,
          All-map (λ z. z.expense_date ≤ y.expense_date) (λ z. z.expense_date ≤ x.expense_date)
              (λ z q. omega arith) ys below,
        ),
        (below, h),
      )
]

Descending-by_date : (xs : List Expense) → Descending (by_date xs)
unfolding by_date
Descending-by_date [] = tt
Descending-by_date (x ∷ xs) = Descending-insert x (by_date xs) (Descending-by_date xs)

Descending-take : (n : ℕ) (xs : List Expense) → Descending xs → Descending (take n xs)
Descending-take zero xs h = tt
Descending-take (suc n) [] h = tt
Descending-take (suc n) (x ∷ xs) (p, h) =
    (All-take (λ y. y.expense_date ≤ x.expense_date) n xs p, Descending-take n xs h)

Descending-drop : (n : ℕ) (xs : List Expense) → Descending xs → Descending (drop n xs)
Descending-drop zero xs h = h
Descending-drop (suc n) [] h = h
Descending-drop (suc n) (x ∷ xs) (p, h) = Descending-drop n xs h

module _ (cal : Calendar) (e : Env) (b : ℕ) where
  -- The rows that the two conditions leave.
  chosen :
      (xs : List Expense)
      → All
          (OnPage cal e b)
          (select (λ x. leb (cal.a_year_before e.today) x.expense_date) (select (counted b) xs))
  chosen [] = tt
  chosen (x ∷ xs) =
      let rest = chosen xs in
      elim (Bool-cases (counted b x)) [
        | inl t ↦ rw t (elim (Bool-cases (leb (cal.a_year_before e.today) x.expense_date)) [
          | inl u ↦ rw u ((ground arith, ground arith), rest)
          | inr u ↦ rw u rest
        ])
        | inr t ↦ rw t rest
      ]

  recent_lem :
      (xs : List Expense)
      → All (OnPage cal e b) (recent cal e b xs) × Descending (recent cal e b xs)
  unfolding recent
  recent_lem xs =
      let found =
        select (λ x. leb (cal.a_year_before e.today) x.expense_date) (select (counted b) xs) in
      (All-by_date (OnPage cal e b) found (chosen xs), Descending-by_date found)

  -- A page is a run of at most 500 of the budget's expenses of the last year, the latest first.
  abbrev pub IsPage : List Expense → Type 0
  IsPage xs = (length xs ≤ max_limit) × All (OnPage cal e b) xs × Descending xs

  page_lem :
      (n k : ℕ) (xs : List Expense) → n ≤ max_limit → IsPage (take n (drop k (recent cal e b xs)))
  page_lem n k xs h =
      let some_rows = drop k (recent cal e b xs) in
      (
        omega (arith, length-take-le n some_rows),
        All-take (OnPage cal e b) n some_rows (All-drop (OnPage cal e b) k _ (recent_lem xs).0),
        Descending-take n some_rows (Descending-drop k _ (recent_lem xs).1),
      )

module _ (atoi : Bytes → Option ℤ) (cal : Calendar) (e : Env) (b : ℕ) (limit offset : Bytes)
    (s : Store) where
  -- For a caller with access, while the database answers, ListExpenses changes nothing and answers with a page,
  -- whatever the query says: at most 500 expenses, all of the budget and of the last year, the latest first.
  pub list_expenses_lem :
      0 < e.user
      → has_access b e.user s ≡ true
      → e.answers 0 ≡ true
      → e.answers 1 ≡ true
      → (xs : List Expense) × (list_expenses atoi cal e (some b) limit offset s
          ≡ pass (record { store = s; effects = []; reply = json 200 (the_expenses xs) }))
        × IsPage cal e b xs
  unfolding list_expenses require_user given ensure
  list_expenses_lem u h q r =
      let page = parse_pagination_params atoi limit offset in
      (
        take (page.0) (drop (page.1) (recent cal e b s.expenses)),
        ground arith,
        page_lem cal e b (page.0) (page.1) s.expenses
            (parse_pagination_params_bounds atoi limit offset).1,
      )
