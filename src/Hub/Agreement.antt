-- ===== src/Hub/Agreement.antt =====
-- When the calls of internal/ws/hub.go do not overlap, the buckets are the clients' own sets.
use financentury_backend.Prelude.{
  ℕ, ◌≡◌, refl, true, none, Option, Bytes, bytes_discrete, ℕ_discrete, arith, inl, inr,
  Option-cases, List, [], ◌∷◌, sym, ap, ◌∙◌, subst,
}
use financentury_backend.Prelude.Maps.{member, member-add, member-remove}
use financentury_backend.Hub.Index.{
  is_indexed, is_indexed-index_all, is_indexed-index_bid, is_indexed-unindex,
  is_indexed-drop_client,
}
use financentury_backend.Hub.Steps.{Step, Reach, here, next, start, idle}
use financentury_backend.Hub.Safety.{
  IsSafeHub, after_deliver, after_deliver_all, after_broadcast, after_broadcast-Keeps,
  broadcast_lem,
}
use financentury_backend.Hub.Reachable.{Reach-IsSafe, start-IsSafe}
use financentury_backend.Hub
use financentury_backend.Hub.{
  Hub, Client, Message, ok, new_hub, register_begin, register_commit, close_client, eject, bucket,
  subscribe_begin, subscribe_commit, unsubscribe_begin, unsubscribe_commit,
}

-- A call that has run both its sections before another starts.
pub data Calls (store : ℕ → Client) : Hub → Type 0 where
  fresh : Calls store (new_hub store)
  register :
      {h : Hub} (i : ℕ)
      → Calls store h
      → (h.store i).send ≡ none
      → Calls store (register_commit i (register_begin i h).1 (register_begin i h).0)
  unregister :
      {h : Hub} (i : ℕ) (h' : Hub) → Calls store h → Hub.unregister i h ≡ ok h' → Calls store h'
  broadcast :
      {h : Hub} (marshal : Message → Option Bytes) (b : Bytes) (msg : Message) (h' : Hub)
      → Calls store h
      → Hub.broadcast marshal b msg h ≡ ok h'
      → Calls store h'
  subscribe :
      {h : Hub} (i : ℕ) (b : Bytes)
      → Calls store h
      → Calls store (subscribe_commit i b (subscribe_begin i b h))
  unsubscribe :
      {h : Hub} (i : ℕ) (b : Bytes)
      → Calls store h
      → Calls store (unsubscribe_commit i b (unsubscribe_begin i b h))
  pump : {h : Hub} (i : ℕ) → Calls store h → Calls store (Hub.pump i h)

Calls-Reach :
    {store : ℕ → Client} {h : Hub}
    → Calls store h
    → Reach (start store) (record { hub = h; phase = idle; pending = [] })
Calls-Reach fresh = here
Calls-Reach (register i c n) =
    next (next (Calls-Reach c) (Step.register_begin _ i refl n)) (Step.register_commit _ i _ refl)
Calls-Reach (unregister i h' c e) = next (Calls-Reach c) (Step.unregister _ i h' refl e)
Calls-Reach (broadcast marshal b msg h' c e) =
    next (Calls-Reach c) (Step.broadcast _ marshal b msg h' refl e)
Calls-Reach (subscribe i b c) =
    next (next (Calls-Reach c) (Step.subscribe_begin _ i b))
      (Step.subscribe_commit _ i b [] [] refl)
Calls-Reach (unsubscribe i b c) =
    next (next (Calls-Reach c) (Step.unsubscribe_begin _ i b))
      (Step.unsubscribe_commit _ i b [] [] refl)
Calls-Reach (pump i c) = next (Calls-Reach c) (Step.pump _ i)

Calls-IsSafeHub : {store : ℕ → Client} {h : Hub} → Calls store h → IsSafeHub h
Calls-IsSafeHub {store} c = (Reach-IsSafe (start-IsSafe store) (Calls-Reach c)).safe

-- A registered client's buckets are the budgets of its own set.
abbrev Agrees : Hub → Type 0
Agrees h =
    (i : ℕ) (b : Bytes)
    → member ℕ_discrete i h.clients ≡ true
    → is_indexed b i h.budget_buckets ≡ member bytes_discrete b (h.store i).budget_ids

after_deliver-budget_ids :
    (payload : Bytes) (i : ℕ) (h : Hub) (j : ℕ)
    → ((after_deliver payload i h).store j).budget_ids ≡ (h.store j).budget_ids
unfolding after_deliver eject
after_deliver-budget_ids payload i h j = ground arith

after_deliver_all-budget_ids :
    (payload : Bytes) (is : List ℕ) (h : Hub) (j : ℕ)
    → ((after_deliver_all payload is h).store j).budget_ids ≡ (h.store j).budget_ids
unfolding after_deliver_all
after_deliver_all-budget_ids payload [] h j = refl
after_deliver_all-budget_ids payload (i ∷ is) h j =
    after_deliver_all-budget_ids payload is (after_deliver payload i h) j
    ∙ after_deliver-budget_ids payload i h j

after_broadcast-budget_ids :
    (marshal : Message → Option Bytes) (b : Bytes) (msg : Message) (h : Hub) (j : ℕ)
    → ((after_broadcast marshal b msg h).store j).budget_ids ≡ (h.store j).budget_ids
unfolding after_broadcast
after_broadcast-budget_ids marshal b msg h j =
    elim (Option-cases (marshal (record msg { budget_id = b }))) [
      | inl failed ↦ rw (failed, after_broadcast)
      | inr (payload, made) ↦
          rw (made, after_broadcast)
            (after_deliver_all-budget_ids payload (bucket b h.budget_buckets) h j)
    ]

broadcast-Agrees :
    (marshal : Message → Option Bytes) (b : Bytes) (msg : Message) (h : Hub)
    → Agrees h
    → Agrees (after_broadcast marshal b msg h)
broadcast-Agrees marshal b msg h a i c m =
    let k = after_broadcast-Keeps marshal b msg h in
    ap (is_indexed c i) k.buckets
    ∙ a i c (sym (ap (member ℕ_discrete i) k.clients) ∙ m)
    ∙ ap (member bytes_discrete c) (sym (after_broadcast-budget_ids marshal b msg h i))

fresh-Agrees : (store : ℕ → Client) → Agrees (new_hub store)
unfolding member
fresh-Agrees store i b m = cc

-- After any calls that do not overlap, a registered client stands in the bucket of a budget
-- exactly if the budget is in its own set.
pub Calls-Agrees :
    {store : ℕ → Client} {h : Hub}
    → Calls store h
    → (i : ℕ) (b : Bytes) → member ℕ_discrete i h.clients ≡ true
    → is_indexed b i h.budget_buckets ≡ member bytes_discrete b (h.store i).budget_ids
unfolding register_begin register_commit subscribe_begin subscribe_commit unsubscribe_begin
    unsubscribe_commit Hub.unregister close_client Hub.pump
Calls-Agrees {store} fresh i b m = fresh-Agrees store i b m
Calls-Agrees (register {h} i c n) j b m =
    let safe = Calls-IsSafeHub c in
    ground (
      arith,
      is_indexed-index_all i (h.store i).budget_ids h.budget_buckets b j,
      member-add ℕ_discrete i j h.clients,
      Calls-Agrees c j b,
      safe.known b i,
      safe.opened i,
    )
Calls-Agrees (unregister {h} i h' c e) j b m = ground (
  arith,
  is_indexed-drop_client i h.budget_buckets b j,
  member-remove ℕ_discrete i j h.clients,
  Calls-Agrees c j b,
)
Calls-Agrees (broadcast {h} marshal b msg h' c e) j b' m =
    let same : after_broadcast marshal b msg h ≡ h' =
      ground (arith, broadcast_lem marshal b msg h (Calls-IsSafeHub c)) in
    subst Agrees same (broadcast-Agrees marshal b msg h (Calls-Agrees c)) j b' m
Calls-Agrees (subscribe {h} i b c) j b' m = ground (
  arith,
  is_indexed-index_bid i b h.budget_buckets b' j,
  member-add bytes_discrete b b' (h.store i).budget_ids,
  Calls-Agrees c j b',
)
Calls-Agrees (unsubscribe {h} i b c) j b' m = ground (
  arith,
  is_indexed-unindex i b h.budget_buckets b' j,
  member-remove bytes_discrete b b' (h.store i).budget_ids,
  Calls-Agrees c j b',
)
Calls-Agrees (pump {h} i c) j b m = ground (arith, Calls-Agrees c j b)
