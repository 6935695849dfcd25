-- ===== src/Handlers/Limits/Leaving.antt =====
-- RemoveCollaborator keeps the limits.
use financentury_backend.Prelude.{
  ℕ, if◌then◌else◌, ◌≡◌, ◌≢◌, refl, arith, Bool, true, false, Option, none, some,
}
use financentury_backend.Handlers.Store.{Store, delete_first, discard, joined}
use financentury_backend.Handlers.Replies.{Env, Answer, pass, ensure, given, require_user}
use financentury_backend.Handlers.Links.Tidy.{Tidy, Tidy-discard}
use financentury_backend.Handlers.Budgets.{joined_by}
use financentury_backend.Handlers.BudgetChanges.{drop_links_of, made_by}
use financentury_backend.Handlers.Members.{remove_collaborator, in_budget}
use financentury_backend.Handlers.Targets.{invalidate_link_targets_cache_all}
use financentury_backend.Handlers.Limits.{IsOrderly}
use financentury_backend.Handlers.Counts.{count-delete_first}
use financentury_backend.Handlers.Limits.Members.{smaller}

-- The links after the clean-up.
tidied :
    (s : Store) (g : Bool) (t b : ℕ)
    → Tidy s.links
    → Tidy (if g then discard (made_by t b) s.links else s.links)
tidied s true t b h = Tidy-discard (made_by t b) s.links h
tidied s false t b h = h

module _ (e : Env) (s : Store) {a : Answer} where
  remove_collaborator-eq-pass :
      (b t : ℕ)
      → remove_collaborator e (some b) (some t) s ≡ pass a
      → (a.store.links ≡ (if e.answers 2 then discard (made_by t b) s.links else s.links))
        × (a.store.collaborators ≡ delete_first (joined b t) s.collaborators)
        × (a.store.budgets ≡ s.budgets)
  unfolding remove_collaborator drop_links_of invalidate_link_targets_cache_all require_user ensure
      given
  remove_collaborator-eq-pass b t h = ground arith

  remove_collaborator_bad :
      (b t : Option ℕ) → remove_collaborator e b t s ≡ pass a → (b ≢ none) × (t ≢ none)
  unfolding remove_collaborator require_user ensure given
  remove_collaborator_bad b t h = (λ q. ground arith, λ q. ground arith)

  pub remove_collaborator-IsOrderly :
      (b t : Option ℕ) → remove_collaborator e b t s ≡ pass a → IsOrderly s → IsOrderly a.store
  remove_collaborator-IsOrderly none t h i = absurd ((remove_collaborator_bad none t h).0 refl)
  remove_collaborator-IsOrderly (some b) none h i =
      absurd ((remove_collaborator_bad (some b) none h).1 refl)
  remove_collaborator-IsOrderly (some b) (some t) h i =
      let (l, c, r) = remove_collaborator-eq-pass b t h in
      smaller s a.store (rw l (tidied s (e.answers 2) t b i.tidy))
        (λ x. rw c (count-delete_first (in_budget x) (joined b t) s.collaborators))
        (λ u. rw c (count-delete_first (joined_by u) (joined b t) s.collaborators))
        (λ u. rw r (omega arith)) i
