-- ===== src/Handlers/Jobs/Published.antt =====
-- What becomes of a message that the job handlers publish.
use siger_api_gateway.Common.{
  ℕ, ◌≡◌, refl, String, Option, none, some, [], ◌∷◌, ◌++◌, Bool-cases, Option-cases, inl, inr,
  if◌then◌else◌,
}
use siger_api_gateway.Http.{Json}
use siger_api_gateway.Messaging.{Sent, NatsClient, Broker, publish, publish_to_stream}
use siger_api_gateway.Handlers.Jobs.{publish_job, publish_core}

-- What has been sent, and the status of the response: without a client nothing is sent, which is no failure;
-- a client that is ready sends the message, unless the library's answer is an error; and any
-- failure is a 500.
abbrev pub outcome : ℕ → Option NatsClient → Option String → String → Json → Sent → Sent × ℕ
outcome good none answer subject message sent = (sent, good)
outcome good (some c) answer subject message sent =
    if c.initialized
    then (elim answer as (λ x. Sent × ℕ) [
      | none ↦ (sent ++ (subject, message) ∷ [], good)
      | some e ↦ (sent, 500)
    ])
    else (sent, 500)

abbrev pub status_for : ℕ → Option String → ℕ
status_for good none = good
status_for good (some e) = 500

-- The code's publishing comes to that.
abbrev pub IsOutcome : ℕ → Sent × Option String → Sent × ℕ → Type 0
IsOutcome good p o = (p.0 ≡ o.0) × (status_for good p.1 ≡ o.1)

module _ (good : ℕ) (broker : Broker) (subject : String) (message : Json) (sent : Sent) where
  pub publish_job-outcome :
      (nats : Option NatsClient)
      → IsOutcome good
          (publish_job broker subject message nats sent)
          (outcome good nats (broker.stream subject message) subject message sent)
  unfolding publish_job publish_to_stream
  publish_job-outcome none = (refl, refl)
  publish_job-outcome (some c) = elim (Bool-cases c.initialized) [
    | inl t ↦ elim (Option-cases (broker.stream subject message)) [
      | inl e ↦ rw (t, e) (refl, refl)
      | inr (why, e) ↦ rw (t, e) (refl, refl)
    ]
    | inr t ↦ rw t (refl, refl)
  ]

  pub publish_core-outcome :
      (nats : Option NatsClient)
      → IsOutcome good
          (publish_core broker subject message nats sent)
          (outcome good nats (broker.core subject message) subject message sent)
  unfolding publish_core publish
  publish_core-outcome none = (refl, refl)
  publish_core-outcome (some c) = elim (Bool-cases c.initialized) [
    | inl t ↦ elim (Option-cases (broker.core subject message)) [
      | inl e ↦ rw (t, e) (refl, refl)
      | inr (why, e) ↦ rw (t, e) (refl, refl)
    ]
    | inr t ↦ rw t (refl, refl)
  ]
