-- ===== src/Tests/Runs.antt =====
-- Background tasks.
use marketer.Prelude.{ℕ, String, true, Option, none, some, [], ◌∷◌, ◌≡◌, refl}
use marketer.Value.{
  Value, null, str, obj, Fields, end, field, Result, ok, err, Exc, type_error, attribute_error,
}
use marketer.Schemas.{CallbackBody, failed_body}
use marketer.Dispatch.Delivery.{Reply, response, plain_verdict, attempt_loop, patch_callback}
use marketer.Dispatch.Background.{
  Profile, World, in_progress_body, account_of, log_request, answer_of, run_single,
}
use marketer.Dispatch.Background.Reports.{run_single_reports, run_single_hangs}
use marketer.Tests.Data.{no_dump, used_tables, sample_context, sample_envelope, sample_settings}

abbrev crash : Exc → String
crash e = "internal_error"

abbrev no_profile : Value → Result (Option Profile)
no_profile v = err type_error

abbrev no_pool : Value → Result (Option Value × Option String)
no_pool v = ok (none, none)

abbrev crashing :
    Option Profile × Option String → Option Value × Option String → Result CallbackBody
crashing p g = err type_error

abbrev up : ℕ → Reply
up k = response 204

abbrev idle : World
idle = record { sess = record { db = used_tables; faults = true ∷ [] }; sent = [] }

run_single_reports_example :
    ((run_single sample_settings true no_dump crash no_profile no_pool crashing sample_envelope
        (some sample_context)
        12
        up
        up
        idle).0
      ≡ ok tt)
    × ((run_single sample_settings true no_dump crash no_profile no_pool crashing sample_envelope
          (some sample_context)
          12
          up
          up
          idle).1.sent
        ≡ in_progress_body ∷ failed_body "internal_error" ∷ [])
unfolding account_of log_request patch_callback attempt_loop plain_verdict answer_of
run_single_reports_example =
    run_single_reports sample_settings true no_dump crash no_profile no_pool crashing
      sample_envelope (some sample_context) 12 up up idle (str "account") refl refl refl (λ e. cc)
      (λ e. cc)

abbrev null_context : Fields
null_context =
    field "callback_url" (str "https://router/cb")
      (field "payload" (obj (field "context" null end)) end)

run_single_hangs_example :
    run_single sample_settings true no_dump crash no_profile no_pool crashing null_context
      (some sample_context)
      12
      up
      up
      idle
    ≡ (err attribute_error, record idle { sent = in_progress_body ∷ [] })
unfolding patch_callback attempt_loop plain_verdict
run_single_hangs_example =
    run_single_hangs sample_settings true no_dump crash no_profile no_pool crashing null_context
      (some sample_context) 12 up up idle (field "context" null end) refl refl refl (λ e. cc)
