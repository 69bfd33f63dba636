-- ===== src/Deploy/Stages.antt =====
-- scripts/deploy_attempt.py: the stages that `run_attempt` completes, and the one that fails.
use genie_promote_cicd.Prelude.{
  ℕ, String, ◌≡◌, refl, Bool, true, false, not, none, some, List, ◌∷◌, ◌++◌, ◌==◌, if◌then◌else◌,
  ◌⊎◌, inl, inr,
}
use genie_promote_cicd.Deploy.Text.{Failure}
use genie_promote_cicd.Deploy.Evidence.{AttemptEvidence, preflight_stage, mutation_stages}
use genie_promote_cicd.Deploy.Run.{Attempt, done, failed}

pub Attempt-cases :
    {A : Type 0} (r : Attempt A) → ((exc : Failure) × (r ≡ failed exc)) ⊎ ((a : A) × (r ≡ done a))
Attempt-cases (failed exc) = inl (exc, refl)
Attempt-cases (done a) = inr (a, refl)

-- The evidence of a loop that came to its end, or that stopped at a stage.
abbrev Completed : List String → AttemptEvidence → AttemptEvidence → Type 0
Completed stages e f =
    (f.completed_stages ≡ e.completed_stages ++ stages) × (f.failed_stage ≡ e.failed_stage)

abbrev Stopped : List String → AttemptEvidence → AttemptEvidence → Type 0
Stopped stages e f =
    (before : List String) × (stage : String) × (after : List String) × (before ++ stage ∷ after
      ≡ stages)
    × (f.completed_stages ≡ e.completed_stages ++ before)
    × (f.failed_stage ≡ some stage)
    × (f.terminal_state ≡ "partial_failed")

abbrev Outcome : List String → AttemptEvidence → Bool × AttemptEvidence → Type 0
Outcome stages e (true, f) = Completed stages e f
Outcome stages e (false, f) = Stopped stages e f

abbrev pub Succeeded : ℕ → AttemptEvidence → Type 0
Succeeded code f =
    (code ≡ 0)
    × (f.completed_stages ≡ preflight_stage ∷ mutation_stages)
    × (f.failed_stage ≡ none)
    × (f.terminal_state ≡ "succeeded")
    × (f.mutation_started ≡ true)

abbrev pub FailedAt : ℕ → AttemptEvidence → Type 0
FailedAt code f =
    (before : List String) × (stage : String) × (after : List String) × (code ≡ 1)
    × (before ++ stage ∷ after ≡ preflight_stage ∷ mutation_stages)
    × (f.completed_stages ≡ before)
    × (f.failed_stage ≡ some stage)
    × (f.terminal_state
        ≡ (if stage == preflight_stage then "operational_failed" else "partial_failed"))
    × (f.mutation_started ≡ not (stage == preflight_stage))
