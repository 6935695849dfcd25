-- ===== src/Handlers/Targets.antt =====
-- internal/handlers/links.go: the targets of a budget's links, cached for thirty seconds, and the
-- fan-outs over them in internal/handlers/helpers.go and internal/handlers/validation.go.
use financentury_backend.Prelude.{
  ℕ, suc, ◌+◌, Bool, Option, none, some, List, [], ◌∷◌, ◌++◌, map, ◌==◌, ltb, if◌then◌else◌,
  ℕ_discrete,
}
use financentury_backend.Prelude.Maps.{find, assign, delete, member}
use financentury_backend.Handlers.Store.{Store, Link, TargetsEntry}
use financentury_backend.Handlers.Replies.{Env, Effect, invalidate, send, Event}

-- `linkTargetsCacheTTL`, in seconds.
abbrev pub link_targets_cache_ttl : ℕ
link_targets_cache_ttl = 30

-- `SELECT DISTINCT target_budget_id FROM budget_links WHERE source_budget_id = $1`
unfoldable pub targets_of : ℕ → List Link → List ℕ
unfolding member ℕ_discrete
targets_of source [] = []
targets_of source (l ∷ ls) =
    let rest = targets_of source ls in
    if l.source_budget_id == source
    then (if member ℕ_discrete l.target_budget_id rest then rest else l.target_budget_id ∷ rest)
    else rest

unfoldable pub invalidate_link_targets_cache : ℕ → Store → Store
unfolding delete ℕ_discrete
invalidate_link_targets_cache source s = record s {
  link_targets = delete ℕ_discrete source s.link_targets;
}

unfoldable pub invalidate_link_targets_cache_all : Store → Store
invalidate_link_targets_cache_all s = record s { link_targets = [] }

-- The rows of an answer that are read: a row that `Scan` refuses is skipped, and the end of an
-- iteration that broke off is taken for the end of the rows.
unfoldable pub arrived : (ℕ → Bool) → ℕ → List ℕ → List ℕ
arrived arrives i [] = []
arrived arrives i (id ∷ ids) =
    let rest = arrived arrives (suc i) ids in if arrives i then id ∷ rest else rest

-- The query of `fetchTargetBudgetIDs`, the request's n-th statement, and the entry that it leaves.
unfoldable pub load_targets : Env → ℕ → ℕ → Store → Store × Option (List ℕ)
unfolding targets_of arrived assign ℕ_discrete
load_targets e n source s =
    let ids = arrived (e.arrives n) 0 (targets_of source s.links) in
    let entry : TargetsEntry = record { ids = ids; expires_at = e.now + link_targets_cache_ttl } in
    let kept = record s { link_targets = assign ℕ_discrete source entry s.link_targets } in
    if e.answers n then (kept, some ids) else (s, none)

-- `fetchTargetBudgetIDs`; `none` is its error.
unfoldable pub fetch_target_budget_ids : Env → ℕ → ℕ → Store → Store × Option (List ℕ)
unfolding load_targets find ℕ_discrete
fetch_target_budget_ids e n source s = elim (find ℕ_discrete source s.link_targets) [
  | none ↦ load_targets e n source s
  | some entry ↦
      if ltb e.now entry.expires_at then (s, some entry.ids) else load_targets e n source s
]

unfoldable pub ids_or_none : Option (List ℕ) → List ℕ
ids_or_none none = []
ids_or_none (some ids) = ids

-- `invalidateBudget`, `invalidateLinkedTargets`, `broadcast` and `broadcastToLinkedTargets`, in the
-- order in which a write to a budget calls them. The statements that read the targets are numbered
-- 8 and 9.
unfoldable pub announce : Env → ℕ → Event → Store → Store × List Effect
unfolding fetch_target_budget_ids ids_or_none
announce e b event s =
    let (s', purged) = fetch_target_budget_ids e 8 b s in
    let (s'', told) = fetch_target_budget_ids e 9 b s' in
    (
      s'',
      (invalidate b ∷ map invalidate (ids_or_none purged))
          ++ (send b event ∷ map (λ t. send t event) (ids_or_none told)),
    )
