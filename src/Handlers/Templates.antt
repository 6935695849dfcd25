-- ===== src/Handlers/Templates.antt =====
-- internal/handlers/budgets.go: the templates of the guided modes and the amounts that they give.
-- A percent stands in tenths.
use financentury_backend.Prelude.{ℕ, ◌+◌, List, [], ◌∷◌, ◌++◌, Bytes, bytes, if◌then◌else◌}
use financentury_backend.Prelude.Int.{pos}
use financentury_backend.Prelude.Text.{same}
use financentury_backend.Handlers.Amounts.{
  Amount, nothing, exceeds, plus, minus, times, percent_of, floor, round, hundred, of_tenths,
}
use financentury_backend.Handlers.Store.{Category}
use financentury_backend.Handlers.Replies.{Env}

-- `guidedCategory`
pub record GuidedCategory : Type 0 where
  pub name : Bytes
  pub percent : ℕ
  pub icon : Bytes
  pub sort_order : ℕ

abbrev guided : Bytes → ℕ → Bytes → ℕ → GuidedCategory
guided n p i o = record { name = n; percent = p; icon = i; sort_order = o }

-- The UTF-8 text of the names with an accent.
abbrev prestamos : Bytes
prestamos = bytes "Pr" ++ (195 ∷ 169 ∷ bytes "stamos")

abbrev inversion : Bytes
inversion = bytes "Inversi" ++ (195 ∷ 179 ∷ bytes "n")

abbrev decoracion : Bytes
decoracion = bytes "Decoraci" ++ (195 ∷ 179 ∷ bytes "n")

abbrev logistica : Bytes
logistica = bytes "Log" ++ (195 ∷ 173 ∷ bytes "stica")

-- The first four entries, which three of the templates begin with.
unfoldable pub necessities : List GuidedCategory → List GuidedCategory
necessities rest =
    guided (bytes "Vivienda") 225 (bytes "home") 1
    ∷ guided (bytes "Comida") 125 (bytes "utensils") 2
    ∷ guided (bytes "Transporte") 90 (bytes "car") 3
    ∷ guided (bytes "Servicios") 60 (bytes "lightbulb") 4
    ∷ rest

unfoldable pub get_balanced_categories : List GuidedCategory
unfolding necessities
get_balanced_categories = necessities (
    guided (bytes "Salidas") 150 (bytes "party") 5
    ∷ guided (bytes "Entretenimiento") 150 (bytes "clapperboard") 6
    ∷ guided (bytes "Tarjetas") 50 (bytes "credit-card") 7
    ∷ guided prestamos 50 (bytes "landmark") 8
    ∷ guided (bytes "Fondo de emergencia") 50 (bytes "landmark") 9
    ∷ guided inversion 50 (bytes "trending") 10
    ∷ [])

unfoldable pub get_debt_free_categories : List GuidedCategory
unfolding necessities
get_debt_free_categories = necessities (
    guided (bytes "Salidas") 150 (bytes "party") 5
    ∷ guided (bytes "Entretenimiento") 150 (bytes "clapperboard") 6
    ∷ guided (bytes "Fondo de emergencia") 100 (bytes "landmark") 7
    ∷ guided inversion 100 (bytes "trending") 8
    ∷ [])

unfoldable pub get_debt_payoff_categories : List GuidedCategory
unfolding necessities
get_debt_payoff_categories = necessities (
    guided (bytes "Salidas") 100 (bytes "party") 5
    ∷ guided (bytes "Entretenimiento") 100 (bytes "clapperboard") 6
    ∷ guided (bytes "Tarjetas") 150 (bytes "credit-card") 7
    ∷ guided prestamos 150 (bytes "landmark") 8
    ∷ [])

unfoldable pub get_travel_categories : List GuidedCategory
get_travel_categories =
    guided (bytes "Vuelos") 300 (bytes "plane") 1
    ∷ guided (bytes "Hospedaje") 300 (bytes "bed") 2
    ∷ guided (bytes "Comida") 160 (bytes "utensils") 3
    ∷ guided (bytes "Actividades") 140 (bytes "map-pin") 4
    ∷ guided (bytes "Transporte local") 100 (bytes "car") 5
    ∷ []

unfoldable pub get_event_categories : List GuidedCategory
get_event_categories =
    guided (bytes "Comida") 500 (bytes "utensils") 1
    ∷ guided (bytes "Bebidas") 300 (bytes "wine") 2
    ∷ guided decoracion 80 (bytes "sparkles") 3
    ∷ guided logistica 120 (bytes "truck") 4
    ∷ []

unfoldable pub get_categories_for_mode : Bytes → List GuidedCategory
unfolding get_balanced_categories get_debt_free_categories get_debt_payoff_categories
    get_travel_categories get_event_categories
get_categories_for_mode mode =
    if same mode (bytes "balanced")
    then get_balanced_categories
    else if same mode (bytes "debt-free")
    then get_debt_free_categories
    else if same mode (bytes "debt-payoff")
    then get_debt_payoff_categories
    else if same mode (bytes "travel")
    then get_travel_categories
    else if same mode (bytes "event")
    then get_event_categories
    else get_balanced_categories

-- What the last entry gets: the rest of the income to the cent, and nothing if that is below zero.
unfoldable pub last_share : Amount → Amount → Amount
last_share income allocated =
    let value = percent_of (round (times (minus income allocated) hundred)) in
    if exceeds nothing value then nothing else value

-- What another entry gets: its percentage, rounded down to the cent.
unfoldable pub share : Amount → GuidedCategory → Amount
share income g =
    percent_of (floor (times (times (percent_of (of_tenths g.percent)) income) hundred))

-- The loop of `seedGuidedCategories`.
unfoldable pub shares : Amount → Amount → List GuidedCategory → List Amount
shares income allocated [] = []
shares income allocated (g ∷ []) = last_share income allocated ∷ []
shares income allocated (g ∷ h ∷ gs) =
    share income g ∷ shares income (plus allocated (share income g)) (h ∷ gs)

-- The rows that the one INSERT makes.
unfoldable pub rows : Env → ℕ → ℕ → List GuidedCategory → List Amount → List Category
rows e fresh b (g ∷ gs) (v ∷ vs) =
    record {
      id = fresh;
      budget_id = b;
      name = g.name;
      allocation_value = e.stored v;
      icon = g.icon;
      sort_order = pos g.sort_order;
    }
    ∷ rows e (fresh + 1) b gs vs
rows e fresh b _ _ = []

-- The rows of `seedGuidedCategories`.
unfoldable pub guided_rows : Env → ℕ → Bytes → Amount → List Category
unfolding get_categories_for_mode shares rows
guided_rows e b mode income =
    let gs = get_categories_for_mode mode in rows e (e.fresh + 1) b gs (shares income nothing gs)
