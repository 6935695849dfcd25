-- ===== src/Hub/Tests.antt =====
-- The hub of internal/ws/hub.go at concrete inputs.
use financentury_backend.Prelude.{
  ℕ, ◌≡◌, ◌≢◌, refl, true, false, Option, none, some, [], ◌∷◌, Bytes, bytes, bytes_discrete,
  ℕ_discrete,
}
use financentury_backend.Prelude.Maps.{find, member, add}
use financentury_backend.Hub.Index.{is_indexed}
use financentury_backend.Hub.Steps.{System, Reach, here, next, Step, idle, registering, start}
use financentury_backend.Hub.Safety.{IsSafeHub}
use financentury_backend.Hub.Reachable.{Reach-no_panic}
use financentury_backend.Hub.Agreement.{Calls, Calls-Agrees}
use financentury_backend.Hub.Race.{subscribe_lost}
use financentury_backend.Hub.{
  Client, Message, Hub, new_hub, panic, register_begin, register_commit, unregister, broadcast,
  subscribe_begin, subscribe_commit,
}

-- Every client starts with one budget and no channel.
abbrev clients : ℕ → Client
clients i = record {
  user_id = bytes "u";
  budget_ids = bytes "home" ∷ [];
  send = none;
  ejecting = false;
  conn_open = true;
}

abbrev marshal_body : Message → Option Bytes
marshal_body m = some m.body

abbrev changed : Message
changed = record { kind = bytes "expense_created"; budget_id = []; body = bytes "{}" }

-- Client 7 between its snapshot and its commit.
abbrev arriving : System
arriving = record (start clients) {
  hub = (register_begin 7 (new_hub clients)).0;
  phase = registering 7 (register_begin 7 (new_hub clients)).1;
}

arriving-Reach : Reach (start clients) arriving
arriving-Reach = next here (Step.register_begin (start clients) 7 refl refl)

abbrev arrived : System
arrived = record arriving {
  hub = register_commit 7 (register_begin 7 (new_hub clients)).1 arriving.hub;
  phase = idle;
}

arrived-Reach : Reach (start clients) arrived
arrived-Reach = next arriving-Reach (Step.register_commit arriving 7 _ refl)

Reach-no_panic_example :
    IsSafeHub arrived.hub
    × (unregister 7 arrived.hub ≢ panic)
    × (broadcast marshal_body (bytes "home") changed arrived.hub ≢ panic)
Reach-no_panic_example =
    Reach-no_panic clients arrived marshal_body (bytes "home") changed 7 arrived-Reach

abbrev registered : Hub
registered =
    register_commit 7 (register_begin 7 (new_hub clients)).1 (register_begin 7 (new_hub clients)).0

registered-Calls : Calls clients registered
registered-Calls = Calls.register 7 Calls.fresh refl

abbrev subscribed : Hub
subscribed = subscribe_commit 7 (bytes "trip") (subscribe_begin 7 (bytes "trip") registered)

subscribed_clients : member ℕ_discrete 7 subscribed.clients ≡ true
unfolding subscribe_commit subscribe_begin register_commit register_begin member add ℕ_discrete
subscribed_clients = refl

Calls-Agrees_example :
    is_indexed (bytes "trip") 7 subscribed.budget_buckets
    ≡ member bytes_discrete (bytes "trip") (subscribed.store 7).budget_ids
Calls-Agrees_example =
    Calls-Agrees (Calls.subscribe 7 (bytes "trip") registered-Calls) 7 (bytes "trip")
      subscribed_clients

new_budget : member bytes_discrete (bytes "trip") (clients 7).budget_ids ≡ false
unfolding member bytes_discrete ℕ_discrete
new_budget = refl

no_clients : member ℕ_discrete 7 (new_hub clients).clients ≡ false
unfolding member bytes_discrete ℕ_discrete
no_clients = refl

no_bucket : is_indexed (bytes "trip") 7 (new_hub clients).budget_buckets ≡ false
unfolding is_indexed find bytes_discrete
no_bucket = refl

subscribe_lost_example :
    (t : System) × Reach (start clients) t
    × (t.phase ≡ idle)
    × (t.pending ≡ [])
    × (member ℕ_discrete 7 t.hub.clients ≡ true)
    × (member bytes_discrete (bytes "trip") (t.hub.store 7).budget_ids ≡ true)
    × (is_indexed (bytes "trip") 7 t.hub.budget_buckets ≡ false)
subscribe_lost_example =
    subscribe_lost (start clients) 7 (bytes "trip") refl refl no_clients new_budget no_bucket
