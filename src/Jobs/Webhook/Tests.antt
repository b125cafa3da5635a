-- ===== src/Jobs/Webhook/Tests.antt =====
-- Deliveries to a server that answers the third attempt only (src/jobs/webhook.rs).
use unlimited_ocr_server.Prelude.{
  ℕ, ◌+◌, ◌*◌, ◌≤◌, ◌≡◌, refl, Option, none, some, codes, Text, ◌⊎◌, arith,
}
use unlimited_ocr_server.Types.{JobRecord, succeeded}
use unlimited_ocr_server.Jobs.Samples.{flaky, patient, hasty, job}
use unlimited_ocr_server.Jobs.Webhook.{
  WebhookError, bad_status, from_job, send, attempt_from, make_request, deliver, delivered, failed,
  dead_letter_failed, backoff_delay,
}
use unlimited_ocr_server.Jobs.Webhook.Delivery.{AllFail, deliver_outcome, backoff_delay_doubles}

abbrev finished : JobRecord
finished = job 1 succeeded 5

third_accepted : (deliver flaky patient 77 6 7 none finished).0 ≡ delivered 77 3
unfolding deliver attempt_from send make_request from_job
third_accepted = refl

gives_up : (deliver flaky hasty 77 6 7 none finished).0 ≡ failed 77 2 (bad_status 503)
unfolding deliver attempt_from send make_request from_job
gives_up = refl

-- The file system takes the dead letter.
abbrev no_error : Option Text
no_error = none

deliver_outcome_example :
    ((k : ℕ) × (1 ≤ k)
      × (k ≤ 3)
      × (send flaky patient (from_job 77 6 finished) k ≡ none)
      × AllFail flaky patient (from_job 77 6 finished) 1 k
      × (deliver flaky patient 77 6 7 none finished ≡ (delivered 77 k, none)))
    ⊎ ((e : WebhookError) × AllFail flaky patient (from_job 77 6 finished) 1 4
        × (send flaky patient (from_job 77 6 finished) 3 ≡ some e)
        × (((no_error ≡ none)
              × (deliver flaky patient 77 6 7 none finished ≡ (
                failed 77 3 e,
                some (record {
                  event = from_job 77 6 finished;
                  attempts = 3;
                  failed_at = 7;
                  error = e;
                }),
              )))
            ⊎ ((refusal : Text) × (no_error ≡ some refusal)
                × (deliver flaky patient 77 6 7 none finished
                    ≡ (dead_letter_failed 77 3 e refusal, none)))))
deliver_outcome_example =
    deliver_outcome flaky patient 77 6 7 none finished (codes "https://example.com/hook") refl
      (ground arith)

backoff_delay_doubles_example :
    ((20 ≤ 16) × (backoff_delay 500 (20 + 1) ≡ 2 * backoff_delay 500 20))
    ⊎ ((17 ≤ 20) × (backoff_delay 500 (20 + 1) ≡ backoff_delay 500 20))
backoff_delay_doubles_example = backoff_delay_doubles 500 20 (ground arith) (ground arith)
