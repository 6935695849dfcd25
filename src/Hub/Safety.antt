-- ===== src/Hub/Safety.antt =====
-- What the sends of internal/ws/hub.go leave, and what they keep: the clients, the buckets and the
-- open channels.
use financentury_backend.Prelude.{
  ℕ, ◌≡◌, refl, ap, ◌∙◌, inl, inr, Bool, true, false, not, ◌&&◌, Option, Option-cases, none, some,
  List, [], ◌∷◌, ◌++◌, Bytes, ℕ_discrete, arith, All, All-map, length, length-append, leb, ltb,
  if◌then◌else◌,
}
use financentury_backend.Prelude.Maps.{member}
use financentury_backend.Hub.Index.{is_indexed, HasFullBuckets}
use financentury_backend.Hub.Steps.{System, Phase, idle, registering}
use financentury_backend.Hub.{
  Hub, Client, ok, Message, send_buf_size, put, eject, deliver, deliver_all, bucket, broadcast,
}

-- The client has an open channel that holds at most `sendBufSize` messages.
abbrev pub is_open : Client → Bool
is_open cl = elim cl.send [
  | none ↦ false
  | some ch ↦ not ch.closed && leb (length ch.queue) send_buf_size
]

abbrev queue_of : Client → List Bytes
queue_of cl = elim cl.send [ none ↦ [] | some ch ↦ ch.queue ]

-- The part of the invariant that the hub alone shows.
pub record IsSafeHub (h : Hub) : Type 0 where
  pub known :
      (b : Bytes) (i : ℕ)
      → is_indexed b i h.budget_buckets ≡ true
      → member ℕ_discrete i h.clients ≡ true
  pub opened : (i : ℕ) → member ℕ_discrete i h.clients ≡ true → is_open (h.store i) ≡ true
  pub full : HasFullBuckets h.budget_buckets

abbrev pub IsStarting : Phase → Hub → Type 0
IsStarting idle h = Unit
IsStarting (registering i snap) h = is_open (h.store i) ≡ true

pub record IsSafe (s : System) : Type 0 where
  pub safe : IsSafeHub s.hub
  pub starting : IsStarting s.phase s.hub

-- A step that keeps the buckets and the clients, and closes no channel.
pub record Keeps (h h' : Hub) : Type 0 where
  pub clients : h'.clients ≡ h.clients
  pub buckets : h'.budget_buckets ≡ h.budget_buckets
  pub opens : (i : ℕ) → is_open (h.store i) ≡ true → is_open (h'.store i) ≡ true

pub Keeps-IsSafeHub : {h h' : Hub} → Keeps h h' → IsSafeHub h → IsSafeHub h'
Keeps-IsSafeHub {h} {h'} k v = record {
  known = λ b i e. rw k.clients (v.known b i (ground (arith, ap (is_indexed b i) k.buckets)));
  opened = λ i e. k.opens i (v.opened i (ground (arith, ap (member ℕ_discrete i) k.clients)));
  full = rw k.buckets v.full;
}

Keeps-trans : {h h' h'' : Hub} → Keeps h h' → Keeps h' h'' → Keeps h h''
Keeps-trans k l = record {
  clients = l.clients ∙ k.clients;
  buckets = l.buckets ∙ k.buckets;
  opens = λ i e. l.opens i (k.opens i e);
}

eject-Keeps : (i : ℕ) (h : Hub) → Keeps h (eject i h)
unfolding eject
eject-Keeps i h = record {
  clients = ground arith;
  buckets = ground arith;
  opens = λ j e. ground arith;
}

-- What a send to an open channel leaves.
unfoldable pub after_deliver : Bytes → ℕ → Hub → Hub
after_deliver payload i h = elim (h.store i).send [
  | none ↦ eject i h
  | some ch ↦
      if ltb (length ch.queue) send_buf_size
      then record h {
        store =
            put i
              (record (h.store i) { send = some (record ch { queue = ch.queue ++ payload ∷ [] }) })
              h.store;
      }
      else eject i h
]

pub deliver_lem :
    (payload : Bytes) (i : ℕ) (h : Hub)
    → is_open (h.store i) ≡ true
    → deliver payload i h ≡ ok (after_deliver payload i h)
unfolding deliver after_deliver
deliver_lem payload i h o = ground arith

after_deliver-Keeps : (payload : Bytes) (i : ℕ) (h : Hub) → Keeps h (after_deliver payload i h)
unfolding after_deliver eject
after_deliver-Keeps payload i h = record {
  clients = ground arith;
  buckets = ground arith;
  opens = λ j e. ground (arith, length-append {0} (queue_of (h.store i)) (payload ∷ []));
}

unfoldable pub after_deliver_all : Bytes → List ℕ → Hub → Hub
after_deliver_all payload [] h = h
after_deliver_all payload (i ∷ is) h = after_deliver_all payload is (after_deliver payload i h)

after_deliver_all-Keeps :
    (payload : Bytes) (is : List ℕ) (h : Hub) → Keeps h (after_deliver_all payload is h)
unfolding after_deliver_all
after_deliver_all-Keeps payload [] h = record { clients = refl; buckets = refl; opens = λ i e. e }
after_deliver_all-Keeps payload (i ∷ is) h =
    Keeps-trans (after_deliver-Keeps payload i h)
      (after_deliver_all-Keeps payload is (after_deliver payload i h))

pub deliver_all_lem :
    (payload : Bytes) (is : List ℕ) (h : Hub)
    → All (λ i. is_open (h.store i) ≡ true) is
    → deliver_all payload is h ≡ ok (after_deliver_all payload is h)
unfolding deliver_all after_deliver_all
deliver_all_lem payload [] h o = refl
deliver_all_lem payload (i ∷ is) h (p, o) =
    rw (deliver_lem payload i h p, deliver_all)
      (deliver_all_lem payload is (after_deliver payload i h) (
        All-map (λ j. is_open (h.store j) ≡ true)
          (λ j. is_open ((after_deliver payload i h).store j) ≡ true)
          (λ j. (after_deliver-Keeps payload i h).opens j) is o))

All-member :
    (P : ℕ → Type 0) (is : List ℕ) → ((i : ℕ) → member ℕ_discrete i is ≡ true → P i) → All P is
unfolding member
All-member P [] f = tt
All-member P (i ∷ is) f = (f i (ground arith), All-member P is (λ j e. f j (ground (arith, e))))

-- Every client of a bucket has an open channel.
bucket-opened :
    (b : Bytes) (h : Hub)
    → IsSafeHub h
    → All (λ i. is_open (h.store i) ≡ true) (bucket b h.budget_buckets)
bucket-opened b h v =
    All-member (λ i. is_open (h.store i) ≡ true) (bucket b h.budget_buckets)
      (λ i e. v.opened i (v.known b i (unfold bucket is_indexed member in ground (arith, e))))

-- What a broadcast leaves.
unfoldable pub after_broadcast : (Message → Option Bytes) → Bytes → Message → Hub → Hub
after_broadcast marshal b msg h = elim (marshal (record msg { budget_id = b })) [
  | none ↦ h
  | some payload ↦ after_deliver_all payload (bucket b h.budget_buckets) h
]

pub broadcast_lem :
    (marshal : Message → Option Bytes) (b : Bytes) (msg : Message) (h : Hub)
    → IsSafeHub h
    → broadcast marshal b msg h ≡ ok (after_broadcast marshal b msg h)
unfolding broadcast after_broadcast
broadcast_lem marshal b msg h v = elim (Option-cases (marshal (record msg { budget_id = b }))) [
  | inl failed ↦ rw (failed, broadcast, after_broadcast)
  | inr (payload, made) ↦
      rw (made, broadcast, after_broadcast)
        (deliver_all_lem payload (bucket b h.budget_buckets) h (bucket-opened b h v))
]

pub after_broadcast-Keeps :
    (marshal : Message → Option Bytes) (b : Bytes) (msg : Message) (h : Hub)
    → Keeps h (after_broadcast marshal b msg h)
unfolding after_broadcast
after_broadcast-Keeps marshal b msg h =
    elim (Option-cases (marshal (record msg { budget_id = b }))) [
      | inl failed ↦
          rw (failed, after_broadcast) (record { clients = refl; buckets = refl; opens = λ i e. e })
      | inr (payload, made) ↦
          rw (made, after_broadcast) (after_deliver_all-Keeps payload (bucket b h.budget_buckets) h)
    ]
