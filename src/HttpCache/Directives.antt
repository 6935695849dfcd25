-- ===== src/HttpCache/Directives.antt =====
-- The table of Cache-Control directives of internal/middleware/cache.go.
use financentury_backend.Prelude.{
  ℕ, zero, suc, ◌+◌, ◌/◌, ◌%◌, Bool, true, false, ◌&&◌, ◌||◌, not, Option, none, some, List, [],
  ◌∷◌, ◌++◌, Bytes, bytes, bytes_discrete, ite, ltb, if◌then◌else◌,
}
use financentury_backend.Prelude.Text.{same, has_prefix, contains, drop, index_byte}

pub record CacheDirective : Type 0 where
  pub visibility : Bytes
  pub max_age : ℕ
  pub stale_while_revalidate : ℕ
  pub stale_if_error : ℕ
  pub public : Bool

-- The digits that the loop of `writeInt` puts before `buf`, the last one first. The buffer's 20
-- places are the fuel: every positive int has fewer digits.
unfoldable pub write_digits : ℕ → ℕ → Bytes → Bytes
write_digits zero v buf = buf
write_digits (suc fuel) v buf =
    let more = write_digits fuel (v / 10) ((48 + v % 10) ∷ buf) in if ltb 0 v then more else buf

-- `writeInt`
unfoldable pub write_int : ℕ → Bytes
unfolding write_digits
write_int zero = b'0' ∷ []
write_int (suc v) = write_digits 20 (suc v) []

-- One optional part of the header.
abbrev pub header_part : Bytes → ℕ → Bytes
header_part name v = if ltb 0 v then name ++ write_int v else []

-- `Header`
unfoldable pub header : CacheDirective → Bytes
header d =
    ite (bytes_discrete d.visibility []) (bytes "private") d.visibility
    ++ header_part (bytes ", max-age=") d.max_age
    ++ header_part (bytes ", stale-while-revalidate=") d.stale_while_revalidate
    ++ header_part (bytes ", stale-if-error=") d.stale_if_error

-- `/api/budgets/`, whose length is 13.
abbrev budgets_prefix : Bytes
budgets_prefix = bytes "/api/budgets/"

-- `matchBudgetSubpath` behind the prefix.
unfoldable pub match_subpath_tail : Bytes → Bytes → Bool
unfolding has_prefix index_byte drop
match_subpath_tail rest sub = elim (index_byte rest b'/') [
  | none ↦ false
  | some zero ↦ false
  | some (suc idx) ↦
      let tail = drop (suc (suc idx)) rest in
      same tail sub || has_prefix tail (sub ++ (b'/' ∷ [])) || has_prefix tail (sub ++ (b'?' ∷ []))
]

unfoldable pub match_budget_subpath : Bytes → Bytes → Bool
unfolding has_prefix drop match_subpath_tail
match_budget_subpath path sub =
    if not (has_prefix path budgets_prefix) then false else match_subpath_tail (drop 13 path) sub

unfoldable pub match_budgets_list : Bytes → Bool
match_budgets_list path = same path (bytes "/api/budgets") || same path budgets_prefix

unfoldable pub match_single_budget : Bytes → Bool
unfolding has_prefix drop index_byte
match_single_budget path =
    if not (has_prefix path budgets_prefix)
    then false
    else (let rest = drop 13 path in
        ite (bytes_discrete rest []) false
          (elim (index_byte rest b'/') [ none ↦ true | some idx ↦ false ]))

abbrev own : ℕ → ℕ → ℕ → CacheDirective
own max_age revalidate on_error = record {
  visibility = bytes "private";
  max_age = max_age;
  stale_while_revalidate = revalidate;
  stale_if_error = on_error;
  public = false;
}

-- An entry of `cacheRules`: its test and its directive.
abbrev pub Rule : Type 0
Rule = (Bytes → Bool) × CacheDirective

unfoldable pub is_invite_preview : Bytes → Bool
unfolding has_prefix contains
is_invite_preview path =
    has_prefix path (bytes "/api/invites/") && not (contains path (bytes "/accept"))

unfoldable pub cache_rules : List Rule
cache_rules =
    ((λ p. has_prefix p (bytes "/api/auth/me")), own 10 60 300)
    ∷ ((λ p. match_budget_subpath p (bytes "budget-resume")), own 300 600 86400)
    ∷ ((λ p. match_budget_subpath p (bytes "trends")), own 60 300 86400)
    ∷ ((λ p. match_budget_subpath p (bytes "summary")), own 10 60 300)
    ∷ ((λ p. match_budget_subpath p (bytes "expenses")), own 10 60 300)
    ∷ (match_budgets_list, own 15 60 300)
    ∷ (match_single_budget, own 30 120 300)
    ∷ (
      is_invite_preview,
      record {
        visibility = bytes "public";
        max_age = 60;
        stale_while_revalidate = 0;
        stale_if_error = 300;
        public = true;
      },
    )
    ∷ ((λ p. has_prefix p (bytes "/api/budgets")), own 10 30 300)
    ∷ []

-- The loop of `LookupCacheDirective` over the rules.
unfoldable pub first_rule : List Rule → Bytes → Option CacheDirective
first_rule [] path = none
first_rule ((matches, d) ∷ rules) path = if matches path then some d else first_rule rules path

-- `LookupCacheDirective`
unfoldable pub lookup_cache_directive : Bytes → Option CacheDirective
unfolding has_prefix contains first_rule cache_rules
lookup_cache_directive path =
    if contains path (bytes "/invites") && has_prefix path (bytes "/api/budgets")
    then none
    else if contains path (bytes "/collaborators")
    then none
    else first_rule cache_rules path
