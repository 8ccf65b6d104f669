-- ===== src/Tests/Hooks.antt =====
-- The persistence hooks and the catalog on concrete tables.
use marketer.Prelude.{true, false, none, some, [], ◌∷◌, ◌++◌, ◌≡◌, refl, arith, contains}
use marketer.Value.{Value, null, str, obj, field, end, ok}
use marketer.Db.Session.{Sess, round_trip, session_scope, swallow}
use marketer.Db.Consistent.{IsConsistent}
use marketer.Db.Repositories.{
  upsert_user, insert_raw_brief, get_action_type, get_active_strategy, ensure_strategy,
}
use marketer.Persistence.{
  PersistCtx, Outcomes, persist_on_ingest, ingest_rows, persist_on_complete,
  persist_on_complete_multi, first_bi, multi_strategy,
}
use marketer.Persistence.Input.{parse_uuid, read_ingest, distill_job_input}
use marketer.Persistence.Invariant.{hooks-IsConsistent}
use marketer.Persistence.Retry.{persist_on_ingest_retry}
use marketer.Persistence.Outcome.{calm, ids_from}
use marketer.Persistence.Rollback.{persist_on_complete_multi_leaks}
use marketer.Catalog.{
  get, snapshot, lifespan, overlays, index_rows, put, refresh, refresh_locked, ensure_fresh,
  enabled_codes, enabled_of, missing, invalidated,
}
use marketer.Catalog.Staleness.{refreshed, record_of, get_after_ttl}
use marketer.Catalog.Startup.{lifespan-overlays}
use marketer.Tests.Data.{
  sample_uuid, no_dump, post_action, sample_strategy, new_tables, used_tables, sample_context,
  sample_envelope, completed_callback, sample_job,
}

used_tables-IsConsistent : IsConsistent used_tables
used_tables-IsConsistent = record {
  one_active = λ u. ground arith;
  jobs_owned = tt;
  one_brief = λ t. ground arith;
}

new_tables-IsConsistent : IsConsistent new_tables
new_tables-IsConsistent = record {
  one_active = λ u. omega arith;
  jobs_owned = tt;
  one_brief = λ t. omega arith;
}

abbrev two_results : Outcomes
two_results =
    (completed_callback, sample_job (some "job-router"))
    ∷ (completed_callback, sample_job none)
    ∷ []

abbrev failing : Sess
failing = record { db = used_tables; faults = false ∷ true ∷ false ∷ [] }

hooks-IsConsistent_example :
    IsConsistent (persist_on_ingest true sample_uuid sample_envelope failing).1.db
    × IsConsistent
        (persist_on_complete no_dump sample_context sample_envelope 12 true completed_callback
          failing).1.db
    × IsConsistent
        (persist_on_complete_multi no_dump sample_context sample_envelope 12 true two_results
          failing).1.db
hooks-IsConsistent_example =
    hooks-IsConsistent true sample_uuid no_dump sample_context sample_envelope 12 completed_callback
      two_results failing used_tables-IsConsistent

abbrev stored : Sess
stored = (persist_on_ingest true sample_uuid sample_envelope (calm new_tables)).1

abbrev stored_context : PersistCtx
stored_context = record { user_id = 1; raw_brief_id = 10; action_code = "create_post" }

first_ingest :
    persist_on_ingest true sample_uuid sample_envelope (calm new_tables)
    ≡ (ok (some stored_context), stored)
unfolding persist_on_ingest read_ingest parse_uuid swallow session_scope ingest_rows get_action_type
    upsert_user insert_raw_brief round_trip
first_ingest = refl

persist_on_ingest_retry_example :
    persist_on_ingest true sample_uuid sample_envelope (record { db = stored.db; faults = [] })
    ≡ (ok (some stored_context), record { db = stored.db; faults = [] })
persist_on_ingest_retry_example =
    persist_on_ingest_retry sample_uuid sample_envelope stored_context (calm new_tables) stored
      new_tables-IsConsistent first_ingest

abbrev sample_input : Value
sample_input = obj (
    field "action_code" (str "create_post") (
      field "router_task_id" (str "task") (
        field "router_job_id" null (
          field "correlation_id" null (
            field "user_request" null (
              field "account_uuid" (str "account")
                (field "client_name" null (field "platform" null end))))))))

sample_input_lem : distill_job_input sample_envelope ≡ ok sample_input
unfolding distill_job_input
sample_input_lem = refl

multi_strategy_lem :
    (results : Outcomes)
    → first_bi results ≡ some null
    → multi_strategy 1 (first_bi results) (calm used_tables)
      ≡ (ok (some sample_strategy), calm used_tables)
unfolding ensure_strategy get_active_strategy round_trip
multi_strategy_lem results h = rw h refl

abbrev good_results : Outcomes
good_results = (completed_callback, sample_job none) ∷ []

persist_on_complete_multi_leaks_example :
    persist_on_complete_multi no_dump sample_context sample_envelope 12 true
      (good_results ++ (completed_callback, sample_job (some "RRSS-POST")) ∷ [])
      (calm used_tables)
    ≡ (ids_from no_dump sample_context sample_envelope 12 10 good_results, calm used_tables)
persist_on_complete_multi_leaks_example =
    persist_on_complete_multi_leaks no_dump sample_context sample_envelope 12 good_results []
      completed_callback (sample_job (some "RRSS-POST")) used_tables used_tables sample_strategy
      sample_input sample_input_lem
      (multi_strategy_lem (good_results ++ (completed_callback, sample_job (some "RRSS-POST")) ∷ [])
        (unfold first_bi in refl))
      (refl, tt) refl

get_after_ttl_example :
    get true 60000 60000 60001 "create_post" (refreshed 0 new_tables) (calm used_tables) ≡ (
      ok (record_of "create_post" none used_tables.action_types),
      (refreshed 60001 used_tables, calm used_tables),
    )
get_after_ttl_example =
    get_after_ttl 0 60000 60000 60001 "create_post" new_tables used_tables (omega arith)
      (omega arith)

starts : (lifespan true 0 1 1 1 invalidated (calm used_tables)).0 ≡ ok tt
unfolding lifespan refresh refresh_locked enabled_codes ensure_fresh session_scope round_trip
    index_rows put enabled_of missing overlays
starts = refl

lifespan-overlays_example : contains "create_post" overlays ≡ true
lifespan-overlays_example =
    lifespan-overlays 0 1 1 1 invalidated used_tables "create_post" (snapshot post_action) starts
      refl refl
