-- ===== src/Handlers/Ceiling.antt =====
-- internal/handlers/categories.go, internal/handlers/budgets.go: the budget-wide ceiling on
-- allocations, as the float64 tests hold it.
use financentury_backend.Handlers.Store.{Store}
