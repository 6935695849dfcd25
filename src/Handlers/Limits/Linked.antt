-- ===== src/Handlers/Limits/Linked.antt =====
-- The requests that change links keep the limits.
use financentury_backend.Prelude.{
  ℕ, ◌<◌, ◌≡◌, ◌≢◌, refl, arith, false, Option, none, some, List, ◌∷◌, ◌==◌, Bytes,
}
use financentury_backend.Handlers.Store.{Store, Link, exists, count, update, delete_first, discard}
use financentury_backend.Handlers.Replies.{Env, Answer, pass, ensure, given, require_user}
use financentury_backend.Handlers.Kept.{told-budgets, told-collaborators, told-links}
use financentury_backend.Handlers.Links.{
  CreateRequest, create_link, update_link, delete_link, created, preflight, new_link, into, between,
  clashes, the_row, max_links_per_budget,
}
use financentury_backend.Handlers.Links.Tidy.{
  Tidy, Tidy-discard, Tidy-delete_first, Tidy-update, set_mode,
}
use financentury_backend.Handlers.Categories.{delete_category, drop_category}
use financentury_backend.Handlers.Budgets.{budget_total}
use financentury_backend.Handlers.Members.{count_budget_collaborators}
use financentury_backend.Handlers.Untouched.{Untouched}
use financentury_backend.Handlers.Limits.{IsOrderly}

pub Untouched-IsOrderly : (s : Store) (a : Answer) → Untouched s a → IsOrderly s → IsOrderly a.store
unfolding count_budget_collaborators budget_total
Untouched-IsOrderly s a (b, c, l) i = record {
  tidy = rw l i.tidy;
  shared = λ x. rw c (i.shared x);
  limited = λ x. rw b (rw c (i.limited x));
}

-- The rest of the changes of links.
relinked :
    (s : Store) (a : Answer) (ls : List Link)
    → a.store.links ≡ ls
    → a.store.budgets ≡ s.budgets
    → a.store.collaborators ≡ s.collaborators
    → Tidy ls
    → IsOrderly s
    → IsOrderly a.store
unfolding count_budget_collaborators budget_total
relinked s a ls l b c t i = record {
  tidy = rw l t;
  shared = λ x. rw c (i.shared x);
  limited = λ x. rw b (rw c (i.limited x));
}

module _ (e : Env) (s : Store) {a : Answer} where
  create_link-eq-pass :
      (b : ℕ) (req : CreateRequest)
      → create_link e (some b) (some req) s ≡ pass a
      → ((req.source_budget_id == b) ≡ false)
        × (exists (between b req.source_budget_id) s.links ≡ false)
        × (count (into b) s.links < max_links_per_budget)
        × (exists (clashes b req.source_category_id) s.links ≡ false)
        × (a.store.links ≡ new_link e e.user b req ∷ s.links)
        × (a.store.budgets ≡ s.budgets)
        × (a.store.collaborators ≡ s.collaborators)
  unfolding create_link preflight created require_user ensure given
  create_link-eq-pass b req h = ground arith

  create_link_bad :
      (b : Option ℕ) (body : Option CreateRequest)
      → create_link e b body s ≡ pass a
      → (b ≢ none) × (body ≢ none)
  unfolding create_link require_user ensure given
  create_link_bad b body h = (λ q. ground arith, λ q. ground arith)

  pub create_link-IsOrderly :
      (b : Option ℕ) (body : Option CreateRequest)
      → create_link e b body s ≡ pass a
      → IsOrderly s
      → IsOrderly a.store
  unfolding count_budget_collaborators budget_total
  create_link-IsOrderly none body h i = absurd ((create_link_bad none body h).0 refl)
  create_link-IsOrderly (some b) none h i = absurd ((create_link_bad (some b) none h).1 refl)
  create_link-IsOrderly (some b) (some req) h i =
      let (own, reverse, few, fresh, links, budgets, collaborators) = create_link-eq-pass b req h in
      record {
        tidy = rw links (own, reverse, few, fresh, i.tidy);
        shared = λ x. rw collaborators (i.shared x);
        limited = λ x. rw budgets (rw collaborators (i.limited x));
      }

  update_link-eq-pass :
      (b k : ℕ) (mode : Bytes)
      → update_link e (some b) (some k) (some mode) s ≡ pass a
      → (a.store.links ≡ update (the_row k b) (set_mode mode) s.links)
        × (a.store.budgets ≡ s.budgets)
        × (a.store.collaborators ≡ s.collaborators)
  unfolding update_link require_user ensure given
  update_link-eq-pass b k mode h = ground arith

  update_link_bad :
      (b k : Option ℕ) (body : Option Bytes)
      → update_link e b k body s ≡ pass a
      → (b ≢ none) × (k ≢ none) × (body ≢ none)
  unfolding update_link require_user ensure given
  update_link_bad b k body h = (λ q. ground arith, λ q. ground arith, λ q. ground arith)

  pub update_link-IsOrderly :
      (b k : Option ℕ) (body : Option Bytes)
      → update_link e b k body s ≡ pass a
      → IsOrderly s
      → IsOrderly a.store
  update_link-IsOrderly none k body h i = absurd ((update_link_bad none k body h).0 refl)
  update_link-IsOrderly (some b) none body h i =
      absurd ((update_link_bad (some b) none body h).1 refl)
  update_link-IsOrderly (some b) (some k) none h i =
      absurd ((update_link_bad (some b) (some k) none h).2 refl)
  update_link-IsOrderly (some b) (some k) (some mode) h i =
      let (l, r, c) = update_link-eq-pass b k mode h in
      relinked s a (update (the_row k b) (set_mode mode) s.links) l r c
        (Tidy-update (the_row k b) mode s.links i.tidy) i

  delete_link-eq-pass :
      (b k : ℕ)
      → delete_link e (some b) (some k) s ≡ pass a
      → (a.store.links ≡ delete_first (the_row k b) s.links)
        × (a.store.budgets ≡ s.budgets)
        × (a.store.collaborators ≡ s.collaborators)
  unfolding delete_link require_user ensure given
  delete_link-eq-pass b k h = ground arith

  delete_link_bad : (b k : Option ℕ) → delete_link e b k s ≡ pass a → (b ≢ none) × (k ≢ none)
  unfolding delete_link require_user ensure given
  delete_link_bad b k h = (λ q. ground arith, λ q. ground arith)

  pub delete_link-IsOrderly :
      (b k : Option ℕ) → delete_link e b k s ≡ pass a → IsOrderly s → IsOrderly a.store
  delete_link-IsOrderly none k h i = absurd ((delete_link_bad none k h).0 refl)
  delete_link-IsOrderly (some b) none h i = absurd ((delete_link_bad (some b) none h).1 refl)
  delete_link-IsOrderly (some b) (some k) h i =
      let (l, r, c) = delete_link-eq-pass b k h in
      relinked s a (delete_first (the_row k b) s.links) l r c
        (Tidy-delete_first (the_row k b) s.links i.tidy) i

  delete_category-eq-pass :
      (b k : ℕ)
      → delete_category e (some b) (some k) s ≡ pass a
      → (a.store.links ≡ discard (λ l. l.source_category_id == k) s.links)
        × (a.store.budgets ≡ s.budgets)
        × (a.store.collaborators ≡ s.collaborators)
  unfolding delete_category drop_category require_user ensure given
  delete_category-eq-pass b k h = grind (arith, told-budgets, told-links, told-collaborators)

  delete_category_bad :
      (b k : Option ℕ) → delete_category e b k s ≡ pass a → (b ≢ none) × (k ≢ none)
  unfolding delete_category require_user ensure given
  delete_category_bad b k h = (λ q. ground arith, λ q. ground arith)

  pub delete_category-IsOrderly :
      (b k : Option ℕ) → delete_category e b k s ≡ pass a → IsOrderly s → IsOrderly a.store
  delete_category-IsOrderly none k h i = absurd ((delete_category_bad none k h).0 refl)
  delete_category-IsOrderly (some b) none h i =
      absurd ((delete_category_bad (some b) none h).1 refl)
  delete_category-IsOrderly (some b) (some k) h i =
      let (l, r, c) = delete_category-eq-pass b k h in
      relinked s a (discard (λ l. l.source_category_id == k) s.links) l r c
        (Tidy-discard (λ l. l.source_category_id == k) s.links i.tidy) i
