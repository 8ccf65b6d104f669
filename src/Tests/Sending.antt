-- ===== src/Tests/Sending.antt =====
-- Deliveries to servers that fail for a while.
use marketer.Prelude.{ℕ, ◌≤◌, true, ◌≡◌, eqb, if◌then◌else◌}
use marketer.Dispatch.Delivery.{
  Reply, response, transport_error, patch_callback, post_orch_job, post_dispatcher,
}
use marketer.Dispatch.Delivery.Attempts.{requests, slept, is_paced, delivery_bounds}
use marketer.Tests.Data.{sample_settings}

abbrev flaky : ℕ → Reply
flaky k = if eqb k 1 then transport_error else response 200

abbrev broken : ℕ → Reply
broken k = response 503

abbrev conflicting : ℕ → Reply
conflicting k = if eqb k 1 then response 409 else response 422

delivery_bounds_example :
    (requests (patch_callback sample_settings broken).0 ≤ 3)
    × (slept (patch_callback sample_settings broken).0 ≤ 16)
    × (is_paced (patch_callback sample_settings broken).0 ≡ true)
    × (requests (post_orch_job sample_settings broken).0 ≤ 3)
    × (slept (post_orch_job sample_settings broken).0 ≤ 16)
    × (is_paced (post_orch_job sample_settings broken).0 ≡ true)
    × (requests (post_dispatcher sample_settings broken).0 ≤ 3)
    × (slept (post_dispatcher sample_settings broken).0 ≤ 16)
    × (is_paced (post_dispatcher sample_settings broken).0 ≡ true)
delivery_bounds_example = delivery_bounds sample_settings broken
