-- ===== src/Hub/Race.antt =====
-- A subscription that arrives while the client registers, in internal/ws/hub.go.
use financentury_backend.Prelude.{
  ℕ, ◌≡◌, refl, true, false, [], none, Bytes, bytes_discrete, ℕ_discrete, arith,
}
use financentury_backend.Prelude.Maps.{member, member-add}
use financentury_backend.Hub.Index.{is_indexed, is_indexed-index_all}
use financentury_backend.Hub.Steps.{System, idle, Step, Reach, here, next}
use financentury_backend.Hub.{register_begin, register_commit, subscribe_begin, subscribe_commit}

module _ (s : System) (i : ℕ) (b : Bytes) where
  -- The hub takes its snapshot, the caller runs both its sections, and the hub commits.
  overtaken : System
  overtaken =
      let (h, snap) = register_begin i s.hub in
      record {
        hub = register_commit i snap (subscribe_commit i b (subscribe_begin i b h));
        phase = idle;
        pending = s.pending;
      }

  overtaken-Reach : s.phase ≡ idle → (s.hub.store i).send ≡ none → Reach s overtaken
  unfolding overtaken
  overtaken-Reach p n =
      next
        (next (next (next here (Step.register_begin s i p n)) (Step.subscribe_begin _ i b))
          (Step.subscribe_commit _ i b [] s.pending refl))
        (Step.register_commit _ i _ refl)

  -- A subscription made between the hub's snapshot of an unregistered client and its commit is
  -- lost: both calls are over, the client is registered and holds the budget in its own set, and no
  -- bucket of that budget holds the client.
  pub subscribe_lost :
      s.phase ≡ idle
      → (s.hub.store i).send ≡ none
      → member ℕ_discrete i s.hub.clients ≡ false
      → member bytes_discrete b (s.hub.store i).budget_ids ≡ false
      → is_indexed b i s.hub.budget_buckets ≡ false
      → (t : System) × Reach s t
        × (t.phase ≡ idle)
        × (t.pending ≡ s.pending)
        × (member ℕ_discrete i t.hub.clients ≡ true)
        × (member bytes_discrete b (t.hub.store i).budget_ids ≡ true)
        × (is_indexed b i t.hub.budget_buckets ≡ false)
  unfolding overtaken register_begin register_commit subscribe_begin subscribe_commit
  subscribe_lost p n absent new unindexed = (
    overtaken,
    overtaken-Reach p n,
    refl,
    refl,
    ground (arith, member-add ℕ_discrete i i s.hub.clients),
    ground (arith, member-add bytes_discrete b b (s.hub.store i).budget_ids),
    ground (arith, is_indexed-index_all i (s.hub.store i).budget_ids s.hub.budget_buckets b i),
  )
