-- ===== src/Handlers/Links.antt =====
-- internal/handlers/links.go: the requests on the links of a target budget.
pub mod Tidy
use financentury_backend.Prelude.{
  ℕ, suc, Bool, ◌&&◌, ◌||◌, not, Option, none, some, List, [], ◌∷◌, Bytes, bytes, ◌==◌, ltb, select,
  reverse, if◌then◌else◌,
}
use financentury_backend.Prelude.Text.{same}
use financentury_backend.Handlers.Store.{
  Store, Budget, Category, Link, exists, count, first, update, delete_first, has_access,
}
use financentury_backend.Handlers.Replies.{
  Env, Answer, Checked, pass, ◌>>=◌, ◌>>◌, ensure, given, require_user, bad_request, not_found,
  internal, json, the_link, the_links, empty, invalidate, send, link_created, link_updated,
  link_deleted,
}
use financentury_backend.Handlers.Targets.{invalidate_link_targets_cache}

abbrev pub max_links_per_budget : ℕ
max_links_per_budget = 10

-- The body of CreateLink.
pub record CreateRequest : Type 0 where
  pub source_budget_id : ℕ
  pub source_category_id : ℕ
  pub filter_mode : Bytes

unfoldable pub is_filter_mode : Bytes → Bool
is_filter_mode m = same m (bytes "all") || same m (bytes "mine")

-- `SELECT currency FROM budgets WHERE id = $1`; NULL, which the scan refuses, is `none`.
unfoldable pub currency_of : ℕ → List Budget → Option Bytes
currency_of b [] = none
currency_of b (row ∷ rows) = if row.id == b then some row.currency else currency_of b rows

-- The conditions of the preflight and of the UNIQUE constraint.
abbrev pub category_in : ℕ → ℕ → Category → Bool
category_in c b row = row.id == c && row.budget_id == b

abbrev pub into : ℕ → Link → Bool
into target row = row.target_budget_id == target

abbrev pub between : ℕ → ℕ → Link → Bool
between source target row = row.source_budget_id == source && row.target_budget_id == target

abbrev pub clashes : ℕ → ℕ → Link → Bool
clashes target c row = row.target_budget_id == target && row.source_category_id == c

-- The checks of CreateLink between the preflight and the insertion.
unfoldable pub preflight : ℕ → CreateRequest → Store → Checked (Unit {0})
unfolding ensure given currency_of exists count
preflight b req s = do
  target ← given (currency_of b s.budgets) (internal "failed to verify link preconditions")
  source ←
      given (currency_of req.source_budget_id s.budgets)
        (internal "failed to verify link preconditions")
  ensure (same target source) (bad_request "budgets must have the same currency")
  ensure (exists (category_in req.source_category_id req.source_budget_id) s.categories)
      (not_found "source category not found in source budget")
  ensure (ltb (count (into b) s.links) max_links_per_budget)
      (bad_request "maximum number of links reached")
  ensure (not (exists (between b req.source_budget_id) s.links))
      (bad_request "cannot create circular link between budgets")

abbrev pub new_link : Env → ℕ → ℕ → CreateRequest → Link
new_link e u b req = record {
  id = e.fresh;
  source_budget_id = req.source_budget_id;
  target_budget_id = b;
  source_category_id = req.source_category_id;
  filter_mode = req.filter_mode;
  created_by = u;
}

-- What follows the insertion.
unfoldable pub created : Env → ℕ → ℕ → CreateRequest → Store → Answer
unfolding invalidate_link_targets_cache
created e u b req s = record {
  store =
      invalidate_link_targets_cache req.source_budget_id
        (record s { links = new_link e u b req ∷ s.links });
  effects = invalidate b ∷ send b link_created ∷ send req.source_budget_id link_created ∷ [];
  reply = json 201 (the_link (new_link e u b req));
}

-- `CreateLink`. The parameters are the path's and the body's, `none` where they do not parse.
unfoldable pub create_link : Env → Option ℕ → Option CreateRequest → Store → Checked Answer
unfolding require_user given ensure is_filter_mode has_access preflight created exists
create_link e budget body s = do
  u ← require_user e
  b ← given budget (bad_request "invalid budget id")
  req ← given body (bad_request "invalid request body")
  ensure (is_filter_mode req.filter_mode) (bad_request "filter_mode must be 'all' or 'mine'")
  ensure (not (req.source_budget_id == 0)) (bad_request "source_budget_id is required")
  ensure (not (req.source_category_id == 0)) (bad_request "source_category_id is required")
  ensure (not (req.source_budget_id == b)) (bad_request "cannot link a budget to itself")
  ensure (e.answers 0 && has_access b u s) (not_found "target budget not found")
  ensure (e.answers 1 && has_access req.source_budget_id u s) (not_found "source budget not found")
  ensure (e.answers 2) (internal "failed to verify link preconditions")
  preflight b req s
  ensure (e.answers 3) (internal "failed to create link")
  ensure (not (exists (clashes b req.source_category_id) s.links))
      (bad_request "this category is already linked to the target budget")
  pass (created e u b req s)

-- `WHERE id = $2 AND target_budget_id = $3`
abbrev pub the_row : ℕ → ℕ → Link → Bool
the_row k b row = row.id == k && row.target_budget_id == b

-- `UpdateLink`: one UPDATE, whose condition has the access check.
unfoldable pub update_link : Env → Option ℕ → Option ℕ → Option Bytes → Store → Checked Answer
unfolding require_user given ensure is_filter_mode has_access first update
update_link e budget link body s = do
  u ← require_user e
  b ← given budget (bad_request "invalid budget id")
  k ← given link (bad_request "invalid link id")
  mode ← given body (bad_request "invalid request body")
  ensure (is_filter_mode mode) (bad_request "filter_mode must be 'all' or 'mine'")
  ensure (e.answers 0) (internal "failed to update link")
  ensure (has_access b u s) (not_found "link not found")
  row ← given (first (the_row k b) s.links) (not_found "link not found")
  pass (record {
    store = record s {
      links = update (the_row k b) (λ r. record r { filter_mode = mode }) s.links;
    };
    effects = invalidate b ∷ send b link_updated ∷ [];
    reply = json 200 (the_link (record row { filter_mode = mode }));
  })

-- `DeleteLink`
unfoldable pub delete_link : Env → Option ℕ → Option ℕ → Store → Checked Answer
unfolding require_user given ensure has_access first delete_first invalidate_link_targets_cache
delete_link e budget link s = do
  u ← require_user e
  b ← given budget (bad_request "invalid budget id")
  k ← given link (bad_request "invalid link id")
  ensure (e.answers 0) (internal "failed to delete link")
  ensure (has_access b u s) (not_found "link not found")
  row ← given (first (the_row k b) s.links) (not_found "link not found")
  pass (record {
    store =
        invalidate_link_targets_cache row.source_budget_id
          (record s { links = delete_first (the_row k b) s.links });
    effects = invalidate b ∷ send b link_deleted ∷ send row.source_budget_id link_deleted ∷ [];
    reply = json 204 empty;
  })

-- The rows up to where the iteration breaks off.
unfoldable until_lost : (ℕ → Bool) → ℕ → List Link → List Link
until_lost arrives i [] = []
until_lost arrives i (l ∷ ls) =
    let rest = until_lost arrives (suc i) ls in if arrives i then l ∷ rest else []

-- `ListLinks`, in the order of creation: the oldest first. The statements are the access query, the
-- listing and the scans of its rows.
unfoldable pub list_links : Env → Option ℕ → Store → Checked Answer
unfolding require_user given ensure has_access until_lost
list_links e budget s = do
  u ← require_user e
  b ← given budget (bad_request "invalid budget id")
  ensure (e.answers 0 && has_access b u s) (not_found "budget not found")
  ensure (e.answers 1) (internal "failed to fetch links")
  ensure (e.answers 2) (internal "failed to parse link")
  pass (record {
    store = s;
    effects = [];
    reply = json 200 (the_links (until_lost (e.arrives 1) 0 (reverse (select (into b) s.links))));
  })
