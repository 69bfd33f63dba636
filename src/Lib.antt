-- ===== src/Lib.antt =====
-- Genie Promote: the promotion of Databricks resources (Genie spaces and dashboards) through a GitHub
-- pull request, a review gate and a deployment, with an audit trail of what happened.
--
-- Parts and files
--   ChangeRequest   genie_reviewer/change_request.py: revision pairs, what was observed of a Change
--                   Request, and `reject_mismatched_deployment`.
--   Promotions      app/promotion_store.py: `PromotionStore` over `InMemoryBackend`. Backend has the
--                   rows and their writes, Store the methods; Reach has one step for each method.
--   Reconcile       app/reconcile.py: observed state becomes audit events and the status cache.
--   Deploy          scripts/deploy_attempt.py: `run_attempt`, the fixed sequence of stages, and the
--                   evidence that it prints; Artifacts, Live and Certify have operations of its stages.
--   Resources       genie_reviewer/resource_kind.py, the registry of kinds with their paths and slugs, and
--                   genie_reviewer/workspace_resource.py, the resolution of a live resource by its title.
--   Config          app/roles_store.py (Roles), app/rules_store.py (Rules), app/prompt_template_store.py
--                   (Prompt) and genie_reviewer/rules_config.py (Effective): what the administrators set.
--                   The dictionary of the roles is the list of its rows, which hold their keys.
--   Rendering       scripts/pre_render.py, `yaml_scalar`: a title as text of a generated bundle file.
--   Quality         genie_reviewer/eval_gate.py: the evaluation of a space's benchmark questions, and
--                   genie_reviewer/audience_check.py: the check of the declared audience.
--   Review          genie_reviewer/review_core.py: reading the model's findings, merging them with the
--                   deterministic ones, and the severity gate.
--   Github          genie_reviewer/github_app.py: check runs, reviews, workflow runs, the phase
--                   and, in Observe, the status that they make.
--   Access          app/authz.py, the access guard, and scripts/reconcile_audience.py, the audience
--                   that a deployment writes to a resource.
--   Engine          engine_api/main.py: how a promotion request is recorded (Persist), who calls
--                   (Identity, Administrators), the administrators' endpoints (Admin, Gate) and what is
--                   shown (Visibility).
--   Prelude         shared types and lemmas: results, effects with state, dictionaries, texts, sorting.
--   Tests           concrete inputs on which the theorems are applied.
-- Github's status is the observation that `reject_mismatched_deployment` guards and `reconcile` turns
-- into events of Promotions. Deploy works on the kinds of Resources. A stage of Deploy calls the
-- audience's `reconcile`, and its evidence comes back as the `attempt` of an observation.
--
-- How the code is modelled
--   A method that reads and writes state is a function from the state to a result, returned or raised,
--   and the state that it leaves, which is kept where it raises. Exceptions keep their class only. Times
--   are numbers; uuids, clock readings and the answers of GitHub, the workspace SDK and `json.loads`
--   are arguments. Dictionaries are association lists in insertion order. `lower`, `upper` and
--   `casefold` change the ASCII letters only, and `strip` removes the ASCII white space only, where
--   Python's methods know all of Unicode; so the claims hold for texts on which these agree. Loops are
--   recursion on the list that they run over; the decimal digits of a number are written with one more
--   step of fuel than the number, which has no more digits. The loop that polls an evaluation is on as
--   much fuel as it waits seconds: each round sleeps at least one. The comparison of two counts with a
--   threshold, on floats, is a parameter, and so are Python's tests of a character on the Unicode
--   tables.
--
-- Not modelled
--   The SQL backend and its migrations, HTTP, threads and the scheduler, the other endpoints of engine_api,
--   prompts and other prose, the other artifact checks, the other operations of rendering,
--   rehydration, the operators' scripts, and the web interface.
mod Prelude
pub mod ChangeRequest
pub mod Promotions
pub mod Reconcile
pub mod Deploy
pub mod Review
pub mod Github
pub mod Resources
pub mod Quality
pub mod Rendering
pub mod Config
pub mod Access
pub mod Engine
mod Tests
