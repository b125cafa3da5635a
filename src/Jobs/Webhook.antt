-- ===== src/Jobs/Webhook.antt =====
-- src/jobs/webhook.rs. The HTTP client, serde and the MAC are the parameter `Http`; ids and clock
-- readings are arguments. A `Duration` is a number of nanoseconds.
pub mod Delivery
mod Tests
use unlimited_ocr_server.Prelude.{
  ℕ, zero, suc, ◌+◌, ◌-◌, ◌*◌, ◌^◌, min, max, Text, codes, Bool, true, false, Option, none, some,
  List, [], ◌∷◌, ◌++◌, ltb, ◌==◌, not, ◌&&◌, if◌then◌else◌,
}
use mathlib.Core.Option
use unlimited_ocr_server.Types.{Uuid, Time, JobRecord}
use unlimited_ocr_server.State.Metrics.{AppMetrics, record_webhook_failure}

pub record WebhookEvent : Type 0 where
  pub event_id : Uuid
  pub event_type : Text
  pub created_at : Time
  pub job : JobRecord

-- The URL, body and headers that `send` hands to the client.
pub record WebhookRequest : Type 0 where
  pub url : Text
  pub body : Text
  pub event_id : Uuid
  pub event_type : Text
  pub delivery_attempt : ℕ
  pub signature : Option Text

pub data WebhookError : Type 0 where
  serialize_failed : Text → WebhookError
  request_failed : Text → WebhookError
  bad_status : (status : ℕ) → WebhookError
  no_attempt : WebhookError

-- What comes back from a request: a response, with whether its status is a success, or an error.
pub data Response : Type 0 where
  responded : (is_success : Bool) (status : ℕ) → Response
  unreachable : Text → Response

pub data Serialized : Type 0 where
  bytes : Text → Serialized
  unserializable : Text → Serialized

pub record Http : Type 0 where
  pub to_vec : WebhookEvent → Serialized
  pub hmac_sha256_hex : (secret body : Text) → Text
  pub post : WebhookRequest → Response

pub record WebhookClient : Type 0 where
  pub max_attempts : ℕ
  pub initial_backoff : ℕ
  pub signing_secret : Option Text

pub record WebhookDeadLetter : Type 0 where
  pub event : WebhookEvent
  pub attempts : ℕ
  pub failed_at : Time
  pub error : WebhookError

pub data WebhookDeliveryResult : Type 0 where
  skipped : WebhookDeliveryResult
  delivered : (event_id : Uuid) (attempts : ℕ) → WebhookDeliveryResult
  failed : (event_id : Uuid) (attempts : ℕ) (error : WebhookError) → WebhookDeliveryResult
  dead_letter_failed :
      (event_id : Uuid) (attempts : ℕ) (error : WebhookError) (dead_letter_error : Text)
      → WebhookDeliveryResult

-- The limit of `std::time::Duration`: 2^64 seconds less a nanosecond.
abbrev pub duration_max : ℕ
duration_max = 2 ^ 64 * 1_000_000_000 - 1

unfoldable pub new : ℕ → ℕ → Option Text → WebhookClient
new max_attempts initial_backoff signing_secret = record {
  max_attempts = max max_attempts 1;
  initial_backoff = initial_backoff;
  signing_secret = signing_secret;
}

unfoldable pub from_job : Uuid → Time → JobRecord → WebhookEvent
from_job event_id now job = record {
  event_id = event_id;
  event_type = codes "job.completed";
  created_at = now;
  job = job;
}

-- `1 << min(attempt - 1, 16)` stays within 32 bits, so `checked_shl` gives it.
unfoldable pub backoff_delay : ℕ → ℕ → ℕ
backoff_delay initial_backoff attempt =
    min (initial_backoff * 2 ^ min (attempt - 1) 16) duration_max

-- What the loop of `deliver` did: the attempts it made, the delays it slept, and how it ended.
pub data Ending : Type 0 where
  accepted : (attempt : ℕ) → Ending
  exhausted : (last_error : Option WebhookError) → Ending

pub record Attempts : Type 0 where
  pub made : List ℕ
  pub slept : List ℕ
  pub outcome : Ending

module _ (http : Http) (client : WebhookClient) where
  unfoldable pub make_request : WebhookEvent → Text → Text → ℕ → WebhookRequest
  make_request event url body attempt = record {
    url = url;
    body = body;
    event_id = event.event_id;
    event_type = event.event_type;
    delivery_attempt = attempt;
    signature =
        Option.map (λ secret. codes "sha256=" ++ http.hmac_sha256_hex secret body)
          client.signing_secret;
  }

  abbrev check_response : Response → Option WebhookError
  check_response (responded true status) = none
  check_response (responded false status) = some (bad_status status)
  check_response (unreachable e) = some (request_failed e)

  abbrev send_to : Option Text → WebhookEvent → ℕ → Option WebhookError
  send_to none event attempt = none
  send_to (some url) event attempt = elim (http.to_vec event) [
    | unserializable e ↦ some (serialize_failed e)
    | bytes body ↦ check_response (http.post (make_request event url body attempt))
  ]

  -- `none` for `Ok(())`
  unfoldable pub send : WebhookEvent → ℕ → Option WebhookError
  send event attempt = send_to event.job.webhook_url event attempt

  -- The loop over `attempt..=max_attempts`, `left` rounds long.
  unfoldable pub attempt_from : (left attempt : ℕ) → Option WebhookError → WebhookEvent → Attempts
  attempt_from zero attempt last_error event = record {
    made = [];
    slept = [];
    outcome = exhausted last_error;
  }
  attempt_from (suc left) attempt last_error event = elim (send event attempt) [
    | none ↦ record { made = attempt ∷ []; slept = []; outcome = accepted attempt }
    | some e ↦
        let rest = attempt_from left (attempt + 1) (some e) event in
        record {
          made = attempt ∷ rest.made;
          slept =
              if ltb attempt client.max_attempts && not (client.initial_backoff == 0)
              then backoff_delay client.initial_backoff attempt ∷ rest.slept
              else rest.slept;
          outcome = rest.outcome;
        }
  ]

  abbrev last_or_default : Option WebhookError → WebhookError
  last_or_default none = no_attempt
  last_or_default (some e) = e

  abbrev bury :
      WebhookEvent
      → Time
      → Option Text
      → Option WebhookError
      → WebhookDeliveryResult × Option WebhookDeadLetter
  bury event failed_at append_error last_error =
      let error = last_or_default last_error in
      elim append_error [
        | none ↦ (
          failed event.event_id client.max_attempts error,
          some (record {
            event = event;
            attempts = client.max_attempts;
            failed_at = failed_at;
            error = error;
          }),
        )
        | some e ↦ (dead_letter_failed event.event_id client.max_attempts error e, none)
      ]

  -- The result, and the record appended to the dead-letter file, if one is. `append_error` is what
  -- the file system says if the append fails.
  unfoldable pub deliver :
      Uuid
      → Time
      → Time
      → Option Text
      → JobRecord
      → WebhookDeliveryResult × Option WebhookDeadLetter
  deliver event_id now failed_at append_error r = elim r.webhook_url [
    | none ↦ (skipped, none)
    | some url ↦
        let event = from_job event_id now r in
        elim (attempt_from client.max_attempts 1 none event).outcome [
          | accepted attempt ↦ (delivered event_id attempt, none)
          | exhausted last_error ↦ bury event failed_at append_error last_error
        ]
  ]

unfoldable pub count_failure : WebhookDeliveryResult → AppMetrics → AppMetrics
count_failure skipped m = m
count_failure (delivered _ _) m = m
count_failure (failed _ _ _) m = record_webhook_failure m
count_failure (dead_letter_failed _ _ _ _) m = record_webhook_failure m

-- The metrics after the call, and the dead letter that it leaves, if any.
unfoldable pub send_webhook :
    Http
    → WebhookClient
    → Uuid
    → Time
    → Time
    → Option Text
    → JobRecord
    → AppMetrics
    → AppMetrics × Option WebhookDeadLetter
send_webhook http client event_id now failed_at append_error r m = elim r.webhook_url [
  | none ↦ (m, none)
  | some url ↦
      let (result, letter) = deliver http client event_id now failed_at append_error r in
      (count_failure result m, letter)
]
