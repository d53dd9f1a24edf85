-- ===== src/Lib.antt =====
-- The core of the LLM gateway: what happens to a chat request between the HTTP handler and the
-- provider that answers it, and the services that this path stands on.
--
-- The parts and their files:
--   Prelude    names and lemmas shared by all: tests on numbers and texts, lists, dictionaries
--              (association lists with `lookup`, `insert`, `remove`, `drop_keys`).
--   Breaker    src/api/circuit_breaker.py. `Ops` has one function per method of `CircuitBreaker`;
--              `Table` is the interface to the database, with `Lawful` for what the code relies on
--              and `list_table` as one that keeps it; `Events` strings calls together.
--   Pipeline   the rules of src/api/request_pipeline.py that act on one message list, tool list,
--              HTTP error or call: repair, normalisation, tool stripping, classification, retries.
--   Reasoning  src/api/reasoning_store.py, and `ensure_thinking_reasoning_content`.
--   Chain      `forward_request` and the loop of `try_chain` of src/api/request_pipeline.py:
--              `Prepare` has what is sent to a step, `Walk` the walk down a profile's chain over the
--              breaker, the store and the upstream.
--   Keys       src/api/key_manager.py: `Manager` has its operations, `Table` the `api_keys` table.
--   Alerts     src/api/alert_manager.py: firing, resolving and acknowledging.
--   Cache      src/api/prompt_cache.py.
--   Runtime    the boot of src/api/runtime.py: `Boot` has its loop, whose fuel is the number of the
--              components, which `Start` shows is enough; `Registry` and `Shutdown` have the other
--              two operations.
--   Router     src/api/router.py: `Names` has the names of models and the registry's aliases,
--              `Scores` the scores and the choice of a model, `Rules` the block, prefer and policy
--              rules, `Build` the chain of a model, `Request` what is known of a request, and
--              `Select` the whole of `select_step`; `Gateway` joins it and the walk to `try_chain`.
--   Settings   `SettingsStore` of src/api/cost_cache.py: `Store` has the cache over the `settings`
--              table, `Table` the interface to that table, `Routing` the routing settings,
--              `Sections` the sections of the configuration that are kept there.
--   Routes     the route table of src/server/router.py: its matchers, and the dispatch.
--   Inflight   src/api/inflight.py, the registry of running requests.
--   Costs      the count of cache hits of src/api/request_pipeline.py.
--   Profiles   the optional fields of a profile, as src/api/config.py accepts them.
--   Refresh    src/api/cost_cache.py: the stored payloads of the plugins and their refresher.
--   Intent     src/api/message_norm.py, which finds the newest instruction of a conversation,
--              src/api/task_classifier.py, and classify_task_detail of src/api/router.py.
--   Cron       the validation of the requests to change a job, in src/api/work_cron.py.
--
-- How they meet: `Router.Gateway` has `try_chain` as a whole, the router's turn and then the walk,
-- over one breaker. `Chain.Walk` reads and writes the breaker of `Breaker.Ops` at every step, has
-- the messages rewritten by `Chain.Prepare` with `Pipeline.Normalize`, `Pipeline.Sanitize` and
-- `Reasoning.Presence`, and turns what the upstream answers into the outcomes of `Pipeline.Errors`
-- under `Pipeline.Retry`. The router asks the same breaker which steps may pass and how healthy
-- they are, under the keys that the walk uses (`Chain.Prepare.key_of`), its answer is the argument
-- `reordered` of the walk (`Chain.Walk.walk_chain`), and its scope is read from the settings store
-- (`Settings.Routing.scope_of`). Keys, Alerts, Cache, Runtime, Routes, Inflight, Costs, Profiles,
-- Refresh and Cron stand by themselves, and Intent uses the router's floats.
--
-- How the code is read: a method that changes an object is a function that returns the new one.
-- JSON objects are records whose fields may be absent, null or set. Exceptions are values. The
-- clock is an argument (whole seconds, in `Refresh` milliseconds), the database, the HTTP exchange,
-- the sleep, the random draw and the JSON parser are parameters. All loops run over lists, or over
-- the attempts that the configuration allows, or on fuel: in `Runtime` the number of the components,
-- in `Intent.Tags` one more than the number of characters, since each round that goes on leaves a
-- shorter text. Letters and digits are the ASCII ones where a text is put into lower case or
-- matched. Numbers are natural: a time is never before the epoch, and where the code subtracts times
-- the comparison is written as a sum.
--
-- Floating-point numbers of the router are a parameter with their comparisons and operations, as are
-- the order in which a Python set is walked and `random.choices`; a theorem that needs a property of
-- them names it as a hypothesis.
--
-- Not modelled: the HTTP server and the pages, the pricing plugins and cost tables, the loading of
-- the classifier's model (the router takes the classification as an argument), the caches of the
-- model registry and of the capability matrix, the memory harness, the work board but for the
-- requests to change a job, log lines and threads.
mod Prelude
pub mod Breaker
pub mod Pipeline
pub mod Reasoning
pub mod Chain
pub mod Keys
pub mod Alerts
pub mod Cache
pub mod Runtime
pub mod Router
pub mod Settings
pub mod Routes
pub mod Inflight
pub mod Costs
pub mod Profiles
pub mod Refresh
pub mod Intent
pub mod Cron
