-- ===== src/Handlers/Coherence/Links.antt =====
-- The requests on links drop the entry of the source whose targets change.
use financentury_backend.Prelude.{
  ℕ, ◌≡◌, ◌≢◌, refl, arith, Bool, Option, none, some, List, [], ◌∷◌, ℕ_discrete, Bytes,
}
use financentury_backend.Prelude.Maps.{delete}
use financentury_backend.Handlers.Store.{Store, Link, first, update, delete_first}
use financentury_backend.Handlers.Replies.{Env, Answer, pass, ensure, given, require_user}
use financentury_backend.Handlers.Targets.{targets_of, invalidate_link_targets_cache}
use financentury_backend.Handlers.Links.{
  CreateRequest, create_link, update_link, delete_link, created, new_link, the_row,
}
use financentury_backend.Handlers.Links.Tidy.{set_mode}
use financentury_backend.Handlers.Coherence.{IsCoherent}
use financentury_backend.Handlers.Coherence.Kept.{dropped-IsCoherent, relinked-IsCoherent}

targets_of-other :
    (l : Link) (ls : List Link) (j : ℕ)
    → j ≢ l.source_budget_id
    → targets_of j (l ∷ ls) ≡ targets_of j ls
unfolding targets_of
targets_of-other l ls j n = ground arith

targets_of-delete_first :
    (p : Link → Bool) (ls : List Link) (row : Link) (j : ℕ)
    → first p ls ≡ some row
    → j ≢ row.source_budget_id
    → targets_of j (delete_first p ls) ≡ targets_of j ls
unfolding targets_of first delete_first
targets_of-delete_first p [] row j f n = refl
targets_of-delete_first p (l ∷ ls) row j f n = ground (arith, targets_of-delete_first p ls row j)

targets_of-update :
    (p : Link → Bool) (mode : Bytes) (ls : List Link) (j : ℕ)
    → targets_of j (update p (set_mode mode) ls) ≡ targets_of j ls
unfolding targets_of update
targets_of-update p mode [] j = refl
targets_of-update p mode (l ∷ ls) j = ground (arith, targets_of-update p mode ls j)

module _ (e : Env) (s : Store) {a : Answer} where
  create_link-entries :
      (b : ℕ) (req : CreateRequest)
      → create_link e (some b) (some req) s ≡ pass a
      → (a.store.links ≡ new_link e e.user b req ∷ s.links)
        × (a.store.link_targets ≡ delete ℕ_discrete req.source_budget_id s.link_targets)
  unfolding create_link created invalidate_link_targets_cache require_user ensure given
  create_link-entries b req h = ground arith

  pub create_link-IsCoherent :
      (b : Option ℕ) (body : Option CreateRequest)
      → create_link e b body s ≡ pass a
      → IsCoherent s
      → IsCoherent a.store
  unfolding create_link require_user ensure given
  create_link-IsCoherent none body h i = absurd (ground arith)
  create_link-IsCoherent (some b) none h i = absurd (ground arith)
  create_link-IsCoherent (some b) (some req) h i =
      let (l, t) = create_link-entries b req h in
      dropped-IsCoherent s a.store req.source_budget_id (new_link e e.user b req ∷ s.links) l t
        (targets_of-other (new_link e e.user b req) s.links) i

  delete_link-entries :
      (b k : ℕ) (row : Link)
      → first (the_row k b) s.links ≡ some row
      → delete_link e (some b) (some k) s ≡ pass a
      → (a.store.links ≡ delete_first (the_row k b) s.links)
        × (a.store.link_targets ≡ delete ℕ_discrete row.source_budget_id s.link_targets)
  unfolding delete_link invalidate_link_targets_cache require_user ensure given
  delete_link-entries b k row f h = ground arith

  delete_link_found :
      (b k : ℕ) (found : Option Link)
      → first (the_row k b) s.links ≡ found
      → delete_link e (some b) (some k) s ≡ pass a
      → IsCoherent s
      → IsCoherent a.store
  unfolding delete_link require_user ensure given
  delete_link_found b k none f h i = absurd (ground arith)
  delete_link_found b k (some row) f h i =
      let (l, t) = delete_link-entries b k row f h in
      dropped-IsCoherent s a.store row.source_budget_id (delete_first (the_row k b) s.links) l t
        (λ j n. targets_of-delete_first (the_row k b) s.links row j f n) i

  pub delete_link-IsCoherent :
      (b k : Option ℕ) → delete_link e b k s ≡ pass a → IsCoherent s → IsCoherent a.store
  unfolding delete_link require_user ensure given
  delete_link-IsCoherent none k h i = absurd (ground arith)
  delete_link-IsCoherent (some b) none h i = absurd (ground arith)
  delete_link-IsCoherent (some b) (some k) h i =
      delete_link_found b k (first (the_row k b) s.links) refl h i

  update_link-entries :
      (b k : ℕ) (mode : Bytes)
      → update_link e (some b) (some k) (some mode) s ≡ pass a
      → (a.store.links ≡ update (the_row k b) (set_mode mode) s.links)
        × (a.store.link_targets ≡ s.link_targets)
  unfolding update_link require_user ensure given
  update_link-entries b k mode h = ground arith

  pub update_link-IsCoherent :
      (b k : Option ℕ) (body : Option Bytes)
      → update_link e b k body s ≡ pass a
      → IsCoherent s
      → IsCoherent a.store
  unfolding update_link require_user ensure given
  update_link-IsCoherent none k body h i = absurd (ground arith)
  update_link-IsCoherent (some b) none body h i = absurd (ground arith)
  update_link-IsCoherent (some b) (some k) none h i = absurd (ground arith)
  update_link-IsCoherent (some b) (some k) (some mode) h i =
      let (l, t) = update_link-entries b k mode h in
      relinked-IsCoherent s a.store (update (the_row k b) (set_mode mode) s.links) l t
        (targets_of-update (the_row k b) mode s.links) i
