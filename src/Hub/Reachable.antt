-- ===== src/Hub/Reachable.antt =====
-- Whatever the interleaving, the hub of internal/ws/hub.go never sends on a closed channel and never
-- closes one twice.
use financentury_backend.Prelude.{
  ℕ, ◌≡◌, ◌≢◌, refl, sym, subst, inl, inr, true, false, Bool-cases, Option, none, some, List, ◌++◌,
  Bytes, ℕ_discrete, arith,
}
use financentury_backend.Prelude.Maps.{find, member, remove, member-add, member-remove}
use financentury_backend.Hub.Index.{
  drop_client, is_indexed, is_indexed-index_bid, is_indexed-unindex, is_indexed-drop_client,
  is_indexed-index_all, index_bid-HasFullBuckets, unindex-HasFullBuckets,
  drop_client-HasFullBuckets, index_all-HasFullBuckets,
}
use financentury_backend.Hub.Steps.{
  System, Pending, Phase, idle, registering, Step, Reach, here, next, start,
}
use financentury_backend.Hub.{
  Hub, Client, ok, panic, Message, put, close_client, unregister, broadcast, register_begin,
  register_commit, subscribe_begin, subscribe_commit, unsubscribe_begin, unsubscribe_commit, pump,
}
use financentury_backend.Hub.Safety.{
  is_open, IsSafeHub, IsStarting, IsSafe, Keeps, Keeps-IsSafeHub, broadcast_lem, after_broadcast,
  after_broadcast-Keeps,
}

-- What an unregister leaves of a hub that knows the client.
after_unregister : ℕ → Hub → Hub
after_unregister i h = record h {
  clients = remove ℕ_discrete i h.clients;
  budget_buckets = drop_client i h.budget_buckets;
  store =
      put i
        (record (h.store i) {
          send = elim (h.store i).send [
            | none ↦ none
            | some ch ↦ some (record ch { closed = true })
          ];
          conn_open = false;
        })
        h.store;
}

unregister_known :
    (i : ℕ) (h : Hub)
    → IsSafeHub h
    → member ℕ_discrete i h.clients ≡ true
    → unregister i h ≡ ok (after_unregister i h)
unfolding unregister after_unregister close_client
unregister_known i h v m = ground (arith, v.opened i m)

after_unregister-IsSafeHub : (i : ℕ) (h : Hub) → IsSafeHub h → IsSafeHub (after_unregister i h)
unfolding after_unregister
after_unregister-IsSafeHub i h v = record {
  known = λ b j e. ground (
    arith,
    is_indexed-drop_client i h.budget_buckets b j,
    member-remove ℕ_discrete i j h.clients,
    v.known b j,
  );
  opened = λ j e. ground (arith, member-remove ℕ_discrete i j h.clients, v.opened j);
  full = drop_client-HasFullBuckets i h.budget_buckets v.full;
}

-- An unregister panics on no safe hub, and leaves one.
pub unregister_lem :
    (i : ℕ) (h : Hub) → IsSafeHub h → (h' : Hub) × (unregister i h ≡ ok h') × IsSafeHub h'
unregister_lem i h v = elim (Bool-cases (member ℕ_discrete i h.clients)) [
  | inl m ↦ (after_unregister i h, unregister_known i h v m, after_unregister-IsSafeHub i h v)
  | inr m ↦ (h, unfold unregister in (rw m), v)
]

register_commit-IsSafeHub :
    (i : ℕ) (snap : List Bytes) (h : Hub)
    → IsSafeHub h
    → is_open (h.store i) ≡ true
    → IsSafeHub (register_commit i snap h)
unfolding register_commit
register_commit-IsSafeHub i snap h v o = record {
  known = λ b j e. ground (
    arith,
    is_indexed-index_all i snap h.budget_buckets b j,
    member-add ℕ_discrete i j h.clients,
    v.known b j,
  );
  opened = λ j e. ground (arith, member-add ℕ_discrete i j h.clients, v.opened j);
  full = index_all-HasFullBuckets i snap h.budget_buckets v.full;
}

subscribe_commit-IsSafeHub :
    (i : ℕ) (b : Bytes) (h : Hub) → IsSafeHub h → IsSafeHub (subscribe_commit i b h)
unfolding subscribe_commit
subscribe_commit-IsSafeHub i b h v = elim (Bool-cases (member ℕ_discrete i h.clients)) [
  | inl m ↦ rw m (record {
    known = λ c j e. ground (arith, is_indexed-index_bid i b h.budget_buckets c j, v.known c j);
    opened = v.opened;
    full = index_bid-HasFullBuckets i b h.budget_buckets v.full;
  })
  | inr m ↦ rw m v
]

unsubscribe_commit-IsSafeHub :
    (i : ℕ) (b : Bytes) (h : Hub) → IsSafeHub h → IsSafeHub (unsubscribe_commit i b h)
unfolding unsubscribe_commit
unsubscribe_commit-IsSafeHub i b h v = record {
  known = λ c j e. ground (arith, is_indexed-unindex i b h.budget_buckets c j, v.known c j);
  opened = v.opened;
  full = unindex-HasFullBuckets i b h.budget_buckets v.full;
}

subscribe_begin-Keeps : (i : ℕ) (b : Bytes) (h : Hub) → Keeps h (subscribe_begin i b h)
unfolding subscribe_begin
subscribe_begin-Keeps i b h = record { clients = refl; buckets = refl; opens = λ j e. ground arith }

unsubscribe_begin-Keeps : (i : ℕ) (b : Bytes) (h : Hub) → Keeps h (unsubscribe_begin i b h)
unfolding unsubscribe_begin
unsubscribe_begin-Keeps i b h = record {
  clients = refl;
  buckets = refl;
  opens = λ j e. ground arith;
}

pump-Keeps : (i : ℕ) (h : Hub) → Keeps h (pump i h)
unfolding pump
pump-Keeps i h = record {
  clients = ground arith;
  buckets = ground arith;
  opens = λ j e. ground arith;
}

register_begin-Keeps : (i : ℕ) (h : Hub) → (h.store i).send ≡ none → Keeps h (register_begin i h).0
unfolding register_begin
register_begin-Keeps i h n = record { clients = refl; buckets = refl; opens = λ j e. ground arith }

IsStarting-opens :
    (p : Phase) (h h' : Hub)
    → ((i : ℕ) → is_open (h.store i) ≡ true → is_open (h'.store i) ≡ true)
    → IsStarting p h
    → IsStarting p h'
IsStarting-opens idle h h' f t = tt
IsStarting-opens (registering i snap) h h' f o = f i o

-- A step of another goroutine than the hub's.
other-IsSafe :
    (s : System) (h : Hub) (ps : List Pending)
    → IsSafeHub h
    → ((i : ℕ) → is_open (s.hub.store i) ≡ true → is_open (h.store i) ≡ true)
    → IsSafe s
    → IsSafe (record s { hub = h; pending = ps })
other-IsSafe s h ps safe f v = record {
  safe = safe;
  starting = IsStarting-opens s.phase s.hub h f v.starting;
}

Keeps-IsSafe :
    (s : System) (h : Hub) (ps : List Pending)
    → Keeps s.hub h
    → IsSafe s
    → IsSafe (record s { hub = h; pending = ps })
Keeps-IsSafe s h ps k v = other-IsSafe s h ps (Keeps-IsSafeHub k v.safe) k.opens v

subscribe_commit-store : (i : ℕ) (b : Bytes) (h : Hub) → (subscribe_commit i b h).store ≡ h.store
unfolding subscribe_commit
subscribe_commit-store i b h = ground arith

Step-IsSafe : {s t : System} → Step s t → IsSafe s → IsSafe t
Step-IsSafe (Step.register_begin s i p n) v = record {
  safe = Keeps-IsSafeHub (register_begin-Keeps i s.hub n) v.safe;
  starting = unfold register_begin in (ground arith);
}
Step-IsSafe (Step.register_commit s i snap p) v = record {
  safe =
      register_commit-IsSafeHub i snap s.hub v.safe (subst (λ q. IsStarting q s.hub) p v.starting);
  starting = tt;
}
Step-IsSafe (Step.unregister s i h p e) v =
    let (h', e', v') = unregister_lem i s.hub v.safe in
    let same : h' ≡ h = ground arith in
    record { safe = subst IsSafeHub same v'; starting = subst (λ q. IsStarting q h) (sym p) tt }
Step-IsSafe (Step.broadcast s marshal b msg h p e) v =
    let same : after_broadcast marshal b msg s.hub ≡ h =
      ground (arith, broadcast_lem marshal b msg s.hub v.safe) in
    Keeps-IsSafe s h s.pending
      (subst (Keeps s.hub) same (after_broadcast-Keeps marshal b msg s.hub)) v
Step-IsSafe (Step.subscribe_begin s i b) v = Keeps-IsSafe s _ _ (subscribe_begin-Keeps i b s.hub) v
Step-IsSafe (Step.subscribe_commit s i b before after e) v =
    other-IsSafe s (subscribe_commit i b s.hub) (before ++ after)
      (subscribe_commit-IsSafeHub i b s.hub v.safe) (λ j o. rw (subscribe_commit-store i b s.hub) o)
      v
Step-IsSafe (Step.unsubscribe_begin s i b) v =
    Keeps-IsSafe s _ _ (unsubscribe_begin-Keeps i b s.hub) v
Step-IsSafe (Step.unsubscribe_commit s i b before after e) v =
    other-IsSafe s (unsubscribe_commit i b s.hub) (before ++ after)
      (unsubscribe_commit-IsSafeHub i b s.hub v.safe) (λ j o. unfold unsubscribe_commit in o) v
Step-IsSafe (Step.pump s i) v = Keeps-IsSafe s (pump i s.hub) s.pending (pump-Keeps i s.hub) v

pub start-IsSafe : (store : ℕ → Client) → IsSafe (start store)
unfolding is_indexed find member
start-IsSafe store = record {
  safe = record { known = λ b i e. cc; opened = λ i e. cc; full = λ b e. cc };
  starting = tt;
}

pub Reach-IsSafe : {s t : System} → IsSafe s → Reach s t → IsSafe t
Reach-IsSafe v here = v
Reach-IsSafe v (next r st) = Step-IsSafe st (Reach-IsSafe v r)

-- In every state that a fresh hub reaches, under every interleaving: a bucket holds registered
-- clients only, a registered client has an open channel of at most 32 messages, no bucket is
-- empty, and neither an unregister nor a broadcast can panic.
pub Reach-no_panic :
    (store : ℕ → Client) (s : System) (marshal : Message → Option Bytes) (b : Bytes) (msg : Message)
    (i : ℕ)
    → Reach (start store) s
    → IsSafeHub s.hub × (unregister i s.hub ≢ panic) × (broadcast marshal b msg s.hub ≢ panic)
Reach-no_panic store s marshal b msg i r =
    let v = Reach-IsSafe (start-IsSafe store) r in
    let (h, e, _) = unregister_lem i s.hub v.safe in
    (v.safe, λ p. cc, λ p. cc (broadcast_lem marshal b msg s.hub v.safe))
