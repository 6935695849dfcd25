-- ===== src/Hub.antt =====
-- internal/ws/hub.go: the hub of the WebSocket clients. A client is known by its address, and
-- `store` holds what the address points to. Each function below is one critical section, or what
-- runs between two of them; where a step may panic (a send on a closed channel, a second close)
-- the outcome says so.
pub mod Index
pub mod Steps
pub mod Safety
pub mod Reachable
pub mod Agreement
pub mod Race
mod Tests
use financentury_backend.Prelude.{
  ℕ, suc, ◌+◌, Bool, true, false, Option, none, some, List, [], ◌∷◌, ◌++◌, map, Bytes,
  bytes_discrete, ℕ_discrete, ltb, length, ite, if◌then◌else◌,
}
use financentury_backend.Prelude.Maps.{find, delete, assign, member, remove, add}
use Index.{Buckets, index_bid, index_all, drop_client, unindex}

-- `sendBufSize`
abbrev pub send_buf_size : ℕ
send_buf_size = 32

pub record Channel : Type 0 where
  pub queue : List Bytes
  pub closed : Bool

-- `ejecting` is set once a drop is scheduled; `conn_open` turns false at `Conn.Close`.
pub record Client : Type 0 where
  pub user_id : Bytes
  pub budget_ids : List Bytes
  pub send : Option Channel
  pub ejecting : Bool
  pub conn_open : Bool

-- `unregister_requests` holds the clients that a `go h.Unregister` was started for.
pub record Hub : Type 0 where
  pub clients : List ℕ
  pub budget_buckets : Buckets
  pub store : ℕ → Client
  pub unregister_requests : List ℕ

pub data Outcome : Type 0 where
  ok : Hub → Outcome
  panic : Outcome

abbrev pub put : ℕ → Client → (ℕ → Client) → ℕ → Client
put i cl store j = ite (ℕ_discrete i j) cl (store j)

-- `NewHub`, over the clients that exist.
abbrev pub new_hub : (ℕ → Client) → Hub
new_hub store = record {
  clients = [];
  budget_buckets = [];
  store = store;
  unregister_requests = [];
}

-- The register branch of `Run` up to the snapshot of the client's budgets.
pub register_begin : ℕ → Hub → Hub × List Bytes
register_begin i h =
    let cl = h.store i in
    let opened : Client = record cl { send = some (record { queue = []; closed = false }) } in
    (record h { store = put i opened h.store }, cl.budget_ids)

-- The register branch under `h.mu`.
pub register_commit : ℕ → List Bytes → Hub → Hub
register_commit i snap h = record h {
  clients = add ℕ_discrete i h.clients;
  budget_buckets = index_all i snap h.budget_buckets;
}

-- `close(client.send)` and `client.Conn.Close()`. Closing a nil or a closed channel panics.
pub close_client : ℕ → Hub → Outcome
close_client i h = elim (h.store i).send [
  | none ↦ panic
  | some ch ↦
      if ch.closed
      then panic
      else ok (record h {
        store =
            put i
              (record (h.store i) { send = some (record ch { closed = true }); conn_open = false })
              h.store;
      })
]

-- The unregister branch of `Run`.
pub unregister : ℕ → Hub → Outcome
unregister i h =
    if member ℕ_discrete i h.clients
    then close_client i (record h {
      clients = remove ℕ_discrete i h.clients;
      budget_buckets = drop_client i h.budget_buckets;
    })
    else ok h

-- A client whose buffer is full is dropped by a goroutine that is started once.
pub eject : ℕ → Hub → Hub
eject i h = if (h.store i).ejecting then h else record h {
  store = put i (record (h.store i) { ejecting = true }) h.store;
  unregister_requests = i ∷ h.unregister_requests;
}

-- The non-blocking send to one client; a nil channel is never ready.
pub deliver : Bytes → ℕ → Hub → Outcome
deliver payload i h = elim (h.store i).send [
  | none ↦ ok (eject i h)
  | some ch ↦
      if ch.closed
      then panic
      else if ltb (length ch.queue) send_buf_size
      then ok (record h {
        store =
            put i
              (record (h.store i) { send = some (record ch { queue = ch.queue ++ payload ∷ [] }) })
              h.store;
      })
      else ok (eject i h)
]

pub deliver_all : Bytes → List ℕ → Hub → Outcome
deliver_all payload [] h = ok h
deliver_all payload (i ∷ is) h = elim (deliver payload i h) [
  | panic ↦ panic
  | ok h' ↦ deliver_all payload is h'
]

-- `h.budgetBuckets[budgetID]`; a missing bucket is empty.
pub bucket : Bytes → Buckets → List ℕ
bucket b m = elim (find bytes_discrete b m) [ none ↦ [] | some s ↦ s ]

pub record Message : Type 0 where
  pub kind : Bytes
  pub budget_id : Bytes
  pub body : Bytes

-- `BroadcastToBudget` and the broadcast branch of `Run`; `marshal` is `json.Marshal`.
pub broadcast : (Message → Option Bytes) → Bytes → Message → Hub → Outcome
broadcast marshal b msg h = elim (marshal (record msg { budget_id = b })) [
  | none ↦ ok h
  | some payload ↦ deliver_all payload (bucket b h.budget_buckets) h
]

-- `SubscribeToBudget`: its section under `client.mu`, then its section under `h.mu`.
pub subscribe_begin : ℕ → Bytes → Hub → Hub
subscribe_begin i b h =
    let cl = h.store i in
    record h {
      store = put i (record cl { budget_ids = add bytes_discrete b cl.budget_ids }) h.store;
    }

pub subscribe_commit : ℕ → Bytes → Hub → Hub
subscribe_commit i b h =
    if member ℕ_discrete i h.clients
    then record h { budget_buckets = index_bid i b h.budget_buckets }
    else h

-- `UnsubscribeFromBudget`: the same two sections.
pub unsubscribe_begin : ℕ → Bytes → Hub → Hub
unsubscribe_begin i b h =
    let cl = h.store i in
    record h {
      store = put i (record cl { budget_ids = remove bytes_discrete b cl.budget_ids }) h.store;
    }

pub unsubscribe_commit : ℕ → Bytes → Hub → Hub
unsubscribe_commit i b h = record h { budget_buckets = unindex i b h.budget_buckets }

-- One round of `writePump`: it takes the oldest message, if there is one.
pub pump : ℕ → Hub → Hub
pump i h = elim (h.store i).send [
  | none ↦ h
  | some ch ↦ elim ch.queue [
    | [] ↦ h
    | m ∷ rest ↦ record h {
      store = put i (record (h.store i) { send = some (record ch { queue = rest }) }) h.store;
    }
  ]
]

-- `ClientCount` and `BudgetSubscriberCount`
pub client_count : Hub → ℕ
client_count h = length h.clients

pub budget_subscriber_count : Bytes → Hub → ℕ
budget_subscriber_count b h = length (bucket b h.budget_buckets)
