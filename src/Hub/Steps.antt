-- ===== src/Hub/Steps.antt =====
-- The goroutines of internal/ws/hub.go as interleaved steps: the hub's `Run` loop, the callers of
-- `SubscribeToBudget` and `UnsubscribeFromBudget` between their two critical sections, and the
-- write pumps. The environment chooses who registers, unregisters and broadcasts. A broadcast's
-- walk is one step: `h.mu` is held, and only the pumps could take a message in between.
use financentury_backend.Prelude.{ℕ, ◌≡◌, Option, none, List, [], ◌∷◌, ◌++◌, Bytes}
use financentury_backend.Hub
use financentury_backend.Hub.{Hub, Client, Message, Outcome, new_hub}

-- Where the hub's goroutine stands: in its `select`, or between the snapshot of a client's budgets
-- and the section under `h.mu`.
pub data Phase : Type 0 where
  idle : Phase
  registering : ℕ → List Bytes → Phase

-- A call between its section under `client.mu` and its section under `h.mu`.
pub data Pending : Type 0 where
  sub unsub : ℕ → Bytes → Pending

pub record System : Type 0 where
  pub hub : Hub
  pub phase : Phase
  pub pending : List Pending

pub data Step : System → System → Type 0 where
  -- A client is single-use: it registers while it has no channel.
  register_begin :
      (s : System) (i : ℕ)
      → s.phase ≡ idle
      → (s.hub.store i).send ≡ none
      → Step s (record s {
        hub = (Hub.register_begin i s.hub).0;
        phase = registering i (Hub.register_begin i s.hub).1;
      })
  register_commit :
      (s : System) (i : ℕ) (snap : List Bytes)
      → s.phase ≡ registering i snap
      → Step s (record s { hub = Hub.register_commit i snap s.hub; phase = idle })
  unregister :
      (s : System) (i : ℕ) (h : Hub)
      → s.phase ≡ idle
      → Hub.unregister i s.hub ≡ Outcome.ok h
      → Step s (record s { hub = h })
  broadcast :
      (s : System) (marshal : Message → Option Bytes) (b : Bytes) (msg : Message) (h : Hub)
      → s.phase ≡ idle
      → Hub.broadcast marshal b msg s.hub ≡ Outcome.ok h
      → Step s (record s { hub = h })
  subscribe_begin :
      (s : System) (i : ℕ) (b : Bytes)
      → Step s (record s { hub = Hub.subscribe_begin i b s.hub; pending = sub i b ∷ s.pending })
  subscribe_commit :
      (s : System) (i : ℕ) (b : Bytes) (before after : List Pending)
      → s.pending ≡ before ++ sub i b ∷ after
      → Step s (record s { hub = Hub.subscribe_commit i b s.hub; pending = before ++ after })
  unsubscribe_begin :
      (s : System) (i : ℕ) (b : Bytes)
      → Step s (record s { hub = Hub.unsubscribe_begin i b s.hub; pending = unsub i b ∷ s.pending })
  unsubscribe_commit :
      (s : System) (i : ℕ) (b : Bytes) (before after : List Pending)
      → s.pending ≡ before ++ unsub i b ∷ after
      → Step s (record s { hub = Hub.unsubscribe_commit i b s.hub; pending = before ++ after })
  pump : (s : System) (i : ℕ) → Step s (record s { hub = Hub.pump i s.hub })

pub data Reach (s : System) : System → Type 0 where
  here : Reach s s
  next : {t u : System} → Reach s t → Step t u → Reach s u

-- A fresh hub over clients that have not registered.
abbrev pub start : (ℕ → Client) → System
start store = record { hub = new_hub store; phase = idle; pending = [] }
