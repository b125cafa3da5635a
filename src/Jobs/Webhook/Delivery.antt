-- ===== src/Jobs/Webhook/Delivery.antt =====
-- How `deliver` of src/jobs/webhook.rs ends, how often it tries and how long it waits.
use native.Mathlib.Nat.{pow-suc, pow-le-pow_right, mul-le-mul_left}
use native.Mathlib.Decide.{ℕ_discrete, dec_le}
use mathlib.Core.Path.{subst}
use unlimited_ocr_server.Prelude.{
  ℕ, zero, suc, ◌+◌, ◌-◌, ◌*◌, ◌^◌, ◌≤◌, ◌<◌, min, ◌≡◌, ◌≢◌, refl, ◌∙◌, ap, sym, ◌⊎◌, inl, inr,
  Text, Option, none, some, arith, length, Option-cases, ◌==◌, if◌then◌else◌,
}
use unlimited_ocr_server.Types.{Uuid, Time, JobRecord}
use unlimited_ocr_server.Jobs.Webhook.{
  WebhookEvent, WebhookError, Http, WebhookClient, delivered, accepted, exhausted, duration_max,
  from_job, backoff_delay, send, attempt_from, bury, deliver, failed, dead_letter_failed,
}

module _ (http : Http) (client : WebhookClient) (event : WebhookEvent) where
  -- Every attempt from `a` up to and without `b` fails.
  abbrev pub AllFail : ℕ → ℕ → Type 0
  AllFail a b = (j : ℕ) → a ≤ j → j < b → send http client event j ≢ none

  AllFail-cons : (a b : ℕ) → send http client event a ≢ none → AllFail (a + 1) b → AllFail a b
  AllFail-cons a b f rest j lo hi = elim (ℕ_discrete a j) [
    | yes e ↦ subst (λ k. send http client event k ≢ none) e f
    | no n ↦ rest j (omega arith) hi
  ]

  -- The error that the loop ends with is that of its last attempt.
  abbrev LastError : (left a : ℕ) (last x : Option WebhookError) → Type 0
  LastError left a last x =
      ((left ≡ 0) × (x ≡ last)) ⊎ ((m : ℕ) × (suc m ≡ a + left) × (x ≡ send http client event m))

  attempt_from_outcome :
      (left a : ℕ) (last : Option WebhookError)
      → ((k : ℕ) × (a ≤ k)
          × (k < a + left)
          × (send http client event k ≡ none)
          × AllFail a k
          × ((attempt_from http client left a last event).outcome ≡ accepted k))
        ⊎ ((x : Option WebhookError) × AllFail a (a + left)
            × ((attempt_from http client left a last event).outcome ≡ exhausted x)
            × LastError left a last x)
  unfolding attempt_from
  attempt_from_outcome zero a last =
      inr (last, (λ j lo hi. absurd (omega arith)), refl, inl (refl, refl))
  attempt_from_outcome (suc left) a last = elim (Option-cases (send http client event a)) [
    | inl ok ↦
        inl (a, omega arith, omega arith, ok, (λ j lo hi. absurd (omega arith)), ground arith)
    | inr (e, bad) ↦
        let f : send http client event a ≢ none = λ q. ground arith in
        elim (attempt_from_outcome left (a + 1) (some e)) [
          | inl (k, lo, hi, ok, fails, out) ↦
              inl (k, omega arith, omega arith, ok, AllFail-cons a k f fails, ground arith)
          | inr (x, fails, out, ends) ↦ inr (
            x,
            (λ j lo hi. AllFail-cons a (a + 1 + left) f fails j lo (omega arith)),
            ground arith,
            elim ends [
              | inl (none_left, same) ↦ inr (a, omega arith, same ∙ sym bad)
              | inr (m, at, same) ↦ inr (m, omega arith, same)
            ],
          )
        ]
  ]

  -- A loop with rounds left makes an attempt.
  attempt_from_made :
      (left a : ℕ) (last : Option WebhookError)
      → 0 < left
      → 0 < length (attempt_from http client left a last event).made
  unfolding attempt_from
  attempt_from_made zero a last h = absurd (omega arith)
  attempt_from_made (suc left) a last h = elim (Option-cases (send http client event a)) [
    | inl ok ↦ ground arith
    | inr (e, bad) ↦ ground arith
  ]

  -- The loop makes at most the attempts that are left, and sleeps between two of them exactly when
  -- a first delay is set.
  attempt_from_counts :
      (left a : ℕ) (last : Option WebhookError)
      → a + left ≡ client.max_attempts + 1
      → (length (attempt_from http client left a last event).made ≤ left)
        × (length (attempt_from http client left a last event).slept ≡ (
            if client.initial_backoff == 0
            then 0
            else length (attempt_from http client left a last event).made - 1))
  unfolding attempt_from
  attempt_from_counts zero a last h = ground arith
  attempt_from_counts (suc left) a last h = elim (Option-cases (send http client event a)) [
    | inl ok ↦ ground arith
    | inr (e, bad) ↦ ground (
      arith,
      attempt_from_counts left (a + 1) (some e) (omega arith),
      attempt_from_made left (a + 1) (some e),
    )
  ]

deliver-exhausted :
    (http : Http) (client : WebhookClient) (event_id : Uuid) (now failed_at : Time)
    (append_error : Option Text) (r : JobRecord) (url : Text) (x : Option WebhookError)
    → r.webhook_url ≡ some url
    → (attempt_from http client client.max_attempts 1 none (from_job event_id now r)).outcome
      ≡ exhausted x
    → deliver http client event_id now failed_at append_error r
      ≡ bury http client (from_job event_id now r) failed_at append_error x
unfolding deliver
deliver-exhausted http client event_id now failed_at append_error r url x here out = ground arith

bury_outcome :
    (http : Http) (client : WebhookClient) (event : WebhookEvent) (failed_at : Time)
    (append_error : Option Text) (e : WebhookError)
    → ((append_error ≡ none)
        × (bury http client event failed_at append_error (some e) ≡ (
          failed event.event_id client.max_attempts e,
          some (record {
            event = event;
            attempts = client.max_attempts;
            failed_at = failed_at;
            error = e;
          }),
        )))
      ⊎ ((refusal : Text) × (append_error ≡ some refusal)
          × (bury http client event failed_at append_error (some e)
              ≡ (dead_letter_failed event.event_id client.max_attempts e refusal, none)))
bury_outcome http client event failed_at none e = inl (refl, refl)
bury_outcome http client event failed_at (some refusal) e = inr (refusal, refl, refl)

-- A delivery that has a URL, with an attempt allowed at least, ends at the first attempt that
-- succeeds, with that attempt's number and no dead letter. If all of `max_attempts` attempts fail, it
-- ends with the error of the last one, and leaves a dead letter with the event, the number of
-- attempts, the time and that error; if the append of the letter fails, it leaves none and says why.
pub deliver_outcome :
    (http : Http) (client : WebhookClient) (event_id : Uuid) (now failed_at : Time)
    (append_error : Option Text) (r : JobRecord) (url : Text)
    → r.webhook_url ≡ some url
    → 1 ≤ client.max_attempts
    → let event = from_job event_id now r in
      ((k : ℕ) × (1 ≤ k)
        × (k ≤ client.max_attempts)
        × (send http client event k ≡ none)
        × AllFail http client event 1 k
        × (deliver http client event_id now failed_at append_error r
            ≡ (delivered event_id k, none)))
      ⊎ ((e : WebhookError) × AllFail http client event 1 (client.max_attempts + 1)
          × (send http client event client.max_attempts ≡ some e)
          × (((append_error ≡ none)
                × (deliver http client event_id now failed_at append_error r ≡ (
                  failed event_id client.max_attempts e,
                  some (record {
                    event = event;
                    attempts = client.max_attempts;
                    failed_at = failed_at;
                    error = e;
                  }),
                )))
              ⊎ ((refusal : Text) × (append_error ≡ some refusal)
                  × (deliver http client event_id now failed_at append_error r
                      ≡ (dead_letter_failed event_id client.max_attempts e refusal, none)))))
unfolding deliver from_job
deliver_outcome http client event_id now failed_at append_error r url here some_attempt =
    let event = from_job event_id now r in
    elim (attempt_from_outcome http client event client.max_attempts 1 none) [
      | inl (k, lo, hi, ok, fails, out) ↦ inl (k, lo, omega arith, ok, fails, ground arith)
      | inr (x, fails, out, ends) ↦
          let all_fail : AllFail http client event 1 (client.max_attempts + 1) =
            λ j lo hi. fails j lo (omega arith) in
          elim ends [
            | inl (none_left, same) ↦ absurd (omega arith)
            | inr (m, at, same) ↦
                let last : m ≡ client.max_attempts = omega arith in
                let same' : x ≡ send http client event client.max_attempts =
                  same ∙ ap (send http client event) last in
                elim (Option-cases (send http client event client.max_attempts)) [
                  | inl ok ↦ absurd (all_fail client.max_attempts some_attempt (omega arith) ok)
                  | inr (e, bad) ↦ inr (
                    e,
                    all_fail,
                    bad,
                    (let same =
                          deliver-exhausted http client event_id now failed_at append_error r url
                            (some e) here (out ∙ ap exhausted (same' ∙ bad)) in
                        elim (bury_outcome http client event failed_at append_error e) [
                          | inl (granted, end) ↦ inl (granted, same ∙ end)
                          | inr (refusal, refused, end) ↦ inr (refusal, refused, same ∙ end)
                        ]),
                  )
                ]
          ]
    ]

-- A delivery makes at most `max_attempts` attempts, and sleeps once between two of them if its
-- first delay is not zero, else never.
attempts_bound :
    (http : Http) (client : WebhookClient) (event : WebhookEvent)
    → let run = attempt_from http client client.max_attempts 1 none event in
      (length run.made ≤ client.max_attempts)
      × (length run.slept ≡ (if client.initial_backoff == 0 then 0 else length run.made - 1))
attempts_bound http client event =
    attempt_from_counts http client event client.max_attempts 1 none (omega arith)

-- The delays double from attempt to attempt up to the seventeenth, from where they stay the same,
-- as long as the largest of them is a `Duration`.
pub backoff_delay_doubles :
    (initial attempt : ℕ)
    → 1 ≤ attempt
    → initial * 2 ^ 16 ≤ duration_max
    → ((attempt ≤ 16) × (backoff_delay initial (attempt + 1) ≡ 2 * backoff_delay initial attempt))
      ⊎ ((17 ≤ attempt) × (backoff_delay initial (attempt + 1) ≡ backoff_delay initial attempt))
unfolding backoff_delay
backoff_delay_doubles initial zero pos small = absurd (omega arith)
backoff_delay_doubles initial (suc m) pos small = elim (dec_le m 15) [
  | yes low ↦
      let here : min (suc m - 1) 16 ≡ m = omega arith in
      let next : min (suc m + 1 - 1) 16 ≡ suc m = omega arith in
      let bound : initial * 2 ^ suc m ≤ initial * 2 ^ 16 =
        mul-le-mul_left initial (pow-le-pow_right {n = 2} (omega arith) {j = 16} (omega arith)) in
      inl (
        omega arith,
        rw (here, next) (omega (arith, bound, ap (λ (n : ℕ). initial * n) (pow-suc 2 m), small)),
      )
  | no high ↦
      let here : min (suc m - 1) 16 ≡ 16 = omega arith in
      let next : min (suc m + 1 - 1) 16 ≡ 16 = omega arith in
      inr (omega arith, rw (here, next) refl)
]
