-- ===== src/Discovery/Registry/Watch.antt =====
-- `WatchService` of internal/discovery/consul.go: one blocking query after the other.
use siger_api_gateway.Common.{ℕ, Option, none, some, List, [], ◌∷◌, map}
use siger_api_gateway.Discovery.Instance.{ServiceInstance}
use siger_api_gateway.Discovery.Registry.{AgentService, to_instance}

-- What Consul answers to a blocking query: nothing, or the entries and the index to wait for next.
abbrev pub Answer : Type 0
Answer = Option (List AgentService × ℕ)

-- What goes into the channels.
pub data WatchEvent : Type 0 where
  instances : List ServiceInstance → WatchEvent
  watch_failed : WatchEvent

-- One round of the loop, which asks with the index `last`: the index after it, and the event.
abbrev pub watch_round : (ℕ → Answer) → ℕ → ℕ × WatchEvent
watch_round ask last = elim (ask last) [
  | none ↦ (last, watch_failed)
  | some (entries, index) ↦ (index, instances (map to_instance entries))
]

-- The rounds against a Consul that changes from query to query.
unfoldable pub watch_rounds : List (ℕ → Answer) → ℕ → List WatchEvent
watch_rounds [] last = []
watch_rounds (ask ∷ rest) last =
    let (next, event) = watch_round ask last in event ∷ watch_rounds rest next
