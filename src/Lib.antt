-- ===== src/Lib.antt =====
-- MARKETER (src/marketer): a service that takes tasks of a router over HTTP, lets a language model
-- write the enrichment of a post or of each job of a subscription, checks what the model wrote,
-- calls the router back, and records what it did in PostgreSQL.
--
-- The parts and how they meet. `main.py` takes a request (`run_task`), asks the catalog of actions
-- (`db/actions_cache.py`) whether the action is enabled, stores the task (`persistence.py`, over
-- `db/repositories.py`) and schedules it. The background task normalizes the envelope
-- (`normalizer.py`), asks the model (`reasoner.py`), corrects the answer (`validator.py`), stores the
-- outcome (`persistence.py` again), and delivers it (`_patch_callback`, `_post_orch_job` and
-- `_post_dispatcher` of `main.py`).
--
-- Which file models what; paths are from the repository's root:
--   Prelude, Prelude/Tests, Prelude/Lists: names and lemmas that all files share.
--   Value, Text: JSON values with the ways Python reads them, and Python's `str` methods.
--   Schemas, Context: src/marketer/schemas, the pydantic models as records.
--   Db: src/marketer/db/models.py, the tables as lists of rows with the next identifier and the time.
--   Db/Session: db/engine.py, a session as a state monad over the tables and the faults to come: each
--     statement takes one fault off the list, and the list stands for every way in which
--     the database can fail. `session_scope` commits or takes back.
--   Db/Repositories: db/repositories.py, function by function; the constraints of the schema are tests
--     before a row is added. Db/Triples, Db/Upserts, Db/Consistent: rules for reasoning on
--     sessions, and what each function keeps.
--   Db/Address: pg_url.py, the address of the database for its two drivers; Ssl has the keys of its query.
--   Persistence: persistence.py. Input has the reads of the envelope, Invariant, Retry, Outcome,
--     Recorded and Rollback what the hooks do.
--   Catalog: db/actions_cache.py and the startup check of main.py; Staleness and Startup.
--   Dispatch/Delivery: the three deliveries of main.py as traces of requests and sleeps; Attempts.
--   Dispatch/Ingest: `POST /tasks` of main.py; Acceptance.
--   Dispatch/Background: `_run_and_callback` of main.py, for a single job; Reports.
--   Dispatch/Batch: `_run_multi_and_callback` of main.py, its steps, with Flow for their
--     order and Requested for the envelope of the model path; Posting, Passthrough, Unmarked and
--     Verdict; Reasoned joins it with the reasoner.
--   Normalizer: Clean has `_clean_string` and `_clean_list` of normalizer.py, Sources where the images
--     of a payload come from, Images the sanitizing of the gallery, Channels the channels and their
--     merge with a profile, Jobs `_extract_subscription_jobs`.
--   Llm: llm/gemini.py, the client as a log of requests; Budget adds up what the answers cost.
--   Reasoner: reasoner.py. Resources, Assembly, Single (`reason`), Multi (`reason_multi`), Clone and
--     Fanout (`reason_multi_fanout`), each with children for what holds of it; Pairing says what it
--     means that results stand for jobs.
--   Gallery: gallery.py. Words and Score have `score_image`, Shortlist the ranking, Pool the fetch.
--   Validator: validator.py. Visual, Facts, Cta and Caption have the checks, Correction has
--     `validate_and_correct` as their composition.
--   Tests: concrete inputs.
--
-- Parameters. `uuid.UUID`, `str.lower`, the matches of the regular expressions, urllib,
-- `datetime.fromisoformat`, what pydantic parses and dumps and what a server answers are arguments of the
-- definitions that use them; so are the readings of the clock, and, for a background task, the two
-- fetches, `reason` and the model path, which may answer anything or raise. The reasoner takes
-- `normalize` and the prompts as arguments, and the SDK of the model as a function of the position and
-- the content of a request: for a fan-out each job has its own, since its calls interleave with those
-- of the others as the threads run. UUIDs are numbers, and identifiers are handed out in order.
--
-- Loops are structural recursions on the lists or on the number of attempts that are left: no fuel is
-- used. Numbers of the JSON are whole numbers with a sign, or floats known by their truth value and by
-- what `int` makes of them.
--
-- Not modelled: logs and the messages of warnings, the times of creation of rows, the coercions of
-- pydantic, prompts, migrations and scripts; the flattening of the brief and the rest of normalizer.py,
-- the compaction of earlier outputs and the rendering of prompts of reasoner.py, user_profile.py
-- and `POST /tasks/sync`.
pub mod Prelude
pub mod Value
pub mod Schemas
pub mod Context
pub mod Text
pub mod Normalizer
pub mod Validator
pub mod Db
pub mod Persistence
pub mod Gallery
pub mod Llm
pub mod Reasoner
pub mod Catalog
pub mod Dispatch
pub mod Tests
