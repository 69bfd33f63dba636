-- ===== src/Tests/Deploy.antt =====
-- An attempt whose fourth stage raises. The state of the operations is the list of the calls.
use genie_promote_cicd.Prelude.{ℕ, String, none, List, [], ◌∷◌, ◌++◌}
use genie_promote_cicd.Deploy.Evidence.{new_evidence}
use genie_promote_cicd.Deploy.Run.{done, failed, Call, Operations, Machine, run_attempt}
use genie_promote_cicd.Deploy.Emission.{Reported, run_attempt-Reported}

abbrev call : String → Call (List String) Unit
call name calls = (done tt, calls ++ name ∷ [])

abbrev operations : Operations (List String)
operations = record {
  preflight = call "preflight";
  bundle_deploy = call "bundle";
  resolve_space = λ calls. (done (("sales", "01ef") ∷ []), calls ++ "resolve" ∷ []);
  assert_app_manage = λ targets. call "manage";
  reconcile_audience = λ targets calls.
      (failed (record { type_name = "RuntimeError"; message = "no readback" }), calls);
  verify_live_state = λ targets. call "verify";
  certify_space = λ targets. call "certify";
}

abbrev outcome : ℕ × Machine (List String)
outcome = run_attempt [] operations (new_evidence "github:7:1" 1 [] none) []

run_attempt-Reported_example : Reported outcome.1
run_attempt-Reported_example = run_attempt-Reported [] operations "github:7:1" 1 [] none []
