-- ===== src/Deploy/Run.antt =====
-- `run_attempt` of scripts/deploy_attempt.py. The operations act on a state that is not in the file,
-- and each returns or raises; a payload that `emit` prints is kept in the order of printing.
use genie_promote_cicd.Prelude.{
  ℕ, suc, String, Bool, true, false, Option, some, List, [], ◌∷◌, ◌++◌, Dict, insert, ◌==◌,
  if◌then◌else◌,
}
use genie_promote_cicd.Deploy.Text.{Failure, safe_reason}
use genie_promote_cicd.Deploy.Evidence.{AttemptEvidence, preflight_stage, mutation_stages}

pub data Attempt (A : Type 0) : Type 0 where
  done : A → Attempt A
  failed : Failure → Attempt A

abbrev pub Call : Type 0 → Type 0 → Type 0
Call W A = W → Attempt A × W

pub record Operations (W : Type 0) : Type 0 where
  pub preflight : Call W Unit
  pub bundle_deploy : Call W Unit
  pub resolve_space : Call W (Dict String)
  pub assert_app_manage : Dict String → Call W Unit
  pub reconcile_audience : Dict String → Call W Unit
  pub verify_live_state : Dict String → Call W Unit
  pub certify_space : Dict String → Call W Unit

-- `d.update(other)`
abbrev pub update : Dict String → Dict String → Dict String
update d [] = d
update d ((k, v) ∷ other) = update (insert k v d) other

module _ {W : Type 0} where
  abbrev keep : Dict String → Attempt Unit × W → Attempt (Dict String) × W
  keep targets (done u, w) = (done targets, w)
  keep targets (failed exc, w) = (failed exc, w)

  abbrev updated : Dict String → Attempt (Dict String) × W → Attempt (Dict String) × W
  updated targets (done resolved, w) = (done (update targets resolved), w)
  updated targets (failed exc, w) = (failed exc, w)

  -- `actions[stage]()`, with the `target_ids` that it leaves. "complete" does nothing.
  unfoldable pub action : Operations W → String → Dict String → Call W (Dict String)
  action ops stage targets w =
      if stage == "bundle_deploy"
      then keep targets (ops.bundle_deploy w)
      else if stage == "resolve_space"
      then updated targets (ops.resolve_space w)
      else if stage == "assert_app_manage"
      then keep targets (ops.assert_app_manage targets w)
      else if stage == "reconcile_audience"
      then keep targets (ops.reconcile_audience targets w)
      else if stage == "verify_live_state"
      then keep targets (ops.verify_live_state targets w)
      else if stage == "certify_space"
      then keep targets (ops.certify_space targets w)
      else (done targets, w)

abbrev pub fail :
    List (Option String) → String → String → Failure → AttemptEvidence → AttemptEvidence
fail secrets stage terminal_state exc e = record e {
  failed_stage = some stage;
  reason = some (safe_reason secrets exc);
  terminal_state = terminal_state;
}

-- `MUTATION_STAGES[index + 1]`, where there is one.
abbrev pub next_stage : String → List String → String
next_stage stage [] = stage
next_stage stage (next ∷ rest) = next

abbrev pub begin_stage : String → AttemptEvidence → AttemptEvidence
begin_stage stage e = record e {
  current_stage = stage;
  mutation_started = if stage == "bundle_deploy" then true else e.mutation_started;
}

abbrev pub end_stage : String → List String → Dict String → AttemptEvidence → AttemptEvidence
end_stage stage rest targets e = record e {
  target_ids = targets;
  completed_stages = e.completed_stages ++ stage ∷ [];
  current_stage = next_stage stage rest;
}

abbrev pub passed_preflight : AttemptEvidence → AttemptEvidence
passed_preflight e = record e {
  completed_stages = e.completed_stages ++ preflight_stage ∷ [];
  current_stage = next_stage preflight_stage mutation_stages;
}

-- The evidence, the payloads printed so far, and the state that the operations act on.
pub record Machine (W : Type 0) : Type 0 where
  pub evidence : AttemptEvidence
  pub emitted : List AttemptEvidence
  pub world : W

module _ {W : Type 0} where
  unfoldable pub emit : Machine W → Machine W
  emit m =
      let e = record m.evidence { sequence = suc m.evidence.sequence } in
      record { evidence = e; emitted = m.emitted ++ e ∷ []; world = m.world }

  -- The loop over the stages: whether it came to its end.
  unfoldable pub run_stages :
      List (Option String) → Operations W → List String → Machine W → Bool × Machine W
  run_stages secrets ops [] m = (true, m)
  run_stages secrets ops (stage ∷ rest) m =
      let e = begin_stage stage m.evidence in
      let (result, w) = action ops stage e.target_ids m.world in
      elim result [
        | failed exc ↦ (
          false,
          emit (record m { evidence = fail secrets stage "partial_failed" exc e; world = w }),
        )
        | done targets ↦
            let after = record m { evidence = end_stage stage rest targets e; world = w } in
            run_stages secrets ops rest (if stage == "complete" then after else emit after)
      ]

  abbrev pub finish : Bool × Machine W → ℕ × Machine W
  finish (false, m) = (1, m)
  finish (true, m) = (
    0,
    emit (record m {
      evidence = record m.evidence { current_stage = "complete"; terminal_state = "succeeded" };
    }),
  )

  -- `run_attempt`, with the process's exit status.
  unfoldable pub run_attempt :
      List (Option String) → Operations W → AttemptEvidence → W → ℕ × Machine W
  run_attempt secrets ops evidence world =
      let m = emit (record { evidence = evidence; emitted = []; world = world }) in
      let (result, w) = ops.preflight world in
      elim result [
        | failed exc ↦ (
          1,
          emit (record m {
            evidence = fail secrets preflight_stage "operational_failed" exc m.evidence;
            world = w;
          }),
        )
        | done u ↦ finish (
            run_stages secrets ops mutation_stages
              (emit (record m { evidence = passed_preflight m.evidence; world = w })))
      ]
