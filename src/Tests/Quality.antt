-- ===== src/Tests/Quality.antt =====
-- An evaluation that is done after one poll, and an audience of whom one does not exist.
use genie_promote_cicd.Prelude.{
  ℕ, ◌+◌, ◌*◌, String, ◌≡◌, none, some, raise, external_error, Bool, Option, pure, ltb, ◌||◌, true,
  List, [], ◌∷◌, ok, any, ◌==◌, map, refl, Result, false, strip, lstrip, rstrip, parts, not,
  if◌then◌else◌,
}
use genie_promote_cicd.Access.Acl.{AudiencePrincipal}
use genie_promote_cicd.Quality.AudienceCheck.{
  Lookups, Grant, check_audience, check_principals, check_tables, missing_select,
}
use genie_promote_cicd.Quality.AudienceLaws.{
  has_severity, is_unreal, is_unknown, is_bad, is_unseen, check_audience-blocks,
}
use genie_promote_cicd.Quality.EvalRun.{EvalRun, EvalClient}

abbrev run : Option String → EvalRun
run status = record {
  eval_run_id = "r1";
  eval_run_status = status;
  num_questions = some 4;
  num_done = some 4;
  num_correct = some 3;
}

-- The state is the clock.
abbrev client : EvalClient ℕ
client = record {
  create_eval_run = λ space_id. pure (run (some "RUNNING"));
  get_eval_run = λ space_id run_id. pure (run (some "DONE"));
  list_eval_results = λ space_id run_id token now. (raise external_error, now);
  get_assessment = λ space_id run_id result_id. pure none;
  monotonic = λ now. now;
  sleep = λ seconds now. now + seconds;
}

-- Below four fifths.
abbrev below : ℕ → ℕ → Bool
below n_pass n = ltb (n_pass * 5) (n * 4)

abbrev granted : String → Result (List Grant)
granted full_name =
    if full_name == "prod.vendas.lojas"
    then raise external_error
    else ok (record { principal = some "ana@example.com"; privileges = "SELECT" ∷ [] } ∷ [])

abbrev directory : Lookups
directory = record {
  principal_exists = some (λ name is_group. ok (not (name == "ninguem")));
  table_exists = none;
  get_effective_grants = granted;
}

abbrev declared : List AudiencePrincipal
declared =
    record { name = "ana@example.com"; is_group = false }
    ∷ record { name = "leitores"; is_group = true }
    ∷ record { name = "ninguem"; is_group = true }
    ∷ []

abbrev read_tables : List String
read_tables = "prod.vendas.fatos" ∷ " prod.vendas.lojas " ∷ "vendas.fatos" ∷ []

check_audience_severities :
    map (λ f. f.severity) (check_audience directory read_tables declared)
    ≡ "BLOCKER" ∷ "SUGGESTION" ∷ "OPERATIONAL" ∷ "BLOCKER" ∷ []
unfolding check_audience check_principals check_tables missing_select parts strip lstrip rstrip
check_audience_severities = refl

check_audience-blocks_example :
    (any (has_severity "BLOCKER") (check_audience directory read_tables declared)
      ≡ (any (is_unreal directory) declared || any (λ t. is_bad directory (strip t)) read_tables))
    × (any (has_severity "OPERATIONAL") (check_audience directory read_tables declared) ≡ (
        any (is_unknown directory) declared
        || any (λ t. is_unseen directory (strip t)) read_tables))
check_audience-blocks_example = check_audience-blocks directory read_tables declared
