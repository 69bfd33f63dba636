-- ===== src/Quality/EvalLaws.antt =====
-- genie_reviewer/eval_gate.py: the end of an evaluation's run and the verdict on it.
use genie_promote_cicd.Prelude.{
  ℕ, ◌+◌, ◌≤◌, String, ◌≡◌, Bool, false, Option, some, ◌⊎◌, eqb, if◌then◌else◌,
}
use genie_promote_cicd.Quality.EvalGate.{Verdict}
use genie_promote_cicd.Quality.EvalRun.{EvalRun, EvalClient, Polled}

-- A verdict that is no advice has counted questions, and blocks exactly where the share of the correct
-- ones is below the threshold.
abbrev pub Counted : (ℕ → ℕ → Bool) → Verdict → Type 0
Counted below v =
    (n_correct : ℕ) × (v.n_correct ≡ some n_correct)
    × (eqb v.n 0 ≡ false)
    × (v.status ≡ (if below n_correct v.n then "block" else "pass"))

abbrev pub Sound : (ℕ → ℕ → Bool) → Verdict → Type 0
Sound below v = (v.status ≡ "advisory") ⊎ Counted below v

module _ (below : ℕ → ℕ → Bool) where
  module _ {S : Type 0} (client : EvalClient S) (space_id : String) where
    -- The clock does not go back while a run is read.
    module _ (deadline interval : ℕ)
        (sleep_clock : (n : ℕ) (s : S)
          → client.monotonic s + n ≤ client.monotonic (client.sleep n s))
        (read_clock : (id : String) (s : S)
          → client.monotonic s ≤ client.monotonic (client.get_eval_run space_id id s).1)
        (positive : 1 ≤ interval) where
      abbrev Ended : Option Polled × S → Type 0
      Ended r = (p : Polled) × (r.0 ≡ some p)
