-- ===== src/Deploy/Emission.antt =====
-- scripts/deploy_attempt.py: the payloads that `run_attempt` prints.
use genie_promote_cicd.Prelude.{
  ℕ, suc, ◌+◌, String, ◌≡◌, refl, Bool, true, false, Option, List, [], ◌∷◌, ◌++◌, arith, Dict, ◌==◌,
  inl, inr, length, length-append, All, All-append, Bool-cases,
}
use genie_promote_cicd.Deploy.Text.{Failure}
use genie_promote_cicd.Deploy.Evidence.{
  AttemptEvidence, new_evidence, preflight_stage, mutation_stages,
}
use genie_promote_cicd.Deploy.Run.{
  Operations, Machine, action, emit, run_stages, run_attempt, finish, begin_stage, end_stage,
  passed_preflight, fail,
}
use genie_promote_cicd.Deploy.Stages.{Attempt-cases}

-- The sequence numbers count up from `n`.
abbrev pub CountsFrom : ℕ → List AttemptEvidence → Type 0
CountsFrom n [] = Unit
CountsFrom n (e ∷ es) = (e.sequence ≡ n) × CountsFrom (suc n) es

CountsFrom-snoc :
    (n : ℕ) (es : List AttemptEvidence) (e : AttemptEvidence)
    → CountsFrom n es
    → e.sequence ≡ n + length es
    → CountsFrom n (es ++ e ∷ [])
CountsFrom-snoc n [] e h k = (omega (arith, k), tt)
CountsFrom-snoc n (d ∷ es) e h k = (h.0, CountsFrom-snoc (suc n) es e h.1 (omega (arith, k)))

abbrev pub Running : AttemptEvidence → Type 0
Running e = e.terminal_state ≡ "running"

module _ {W : Type 0} where
  abbrev Quiet : Machine W → Type 0
  Quiet m =
      CountsFrom 1 m.emitted
      × (m.evidence.sequence ≡ length m.emitted)
      × All Running m.emitted
      × Running m.evidence

  -- The last payload is the evidence, and the others say that the attempt runs.
  abbrev pub Reported : Machine W → Type 0
  Reported m =
      (earlier : List AttemptEvidence) × (m.emitted ≡ earlier ++ m.evidence ∷ [])
      × CountsFrom 1 m.emitted
      × All Running earlier

  emit-Quiet : (m : Machine W) → Quiet m → Quiet (emit m)
  unfolding emit
  emit-Quiet m h =
      let e = record m.evidence { sequence = suc m.evidence.sequence } in
      (
        CountsFrom-snoc 1 m.emitted e h.0 (omega (arith, h.1)),
        omega (arith, h.1, length-append m.emitted (e ∷ [])),
        All-append Running m.emitted (e ∷ []) h.2 (h.3, tt),
        h.3,
      )

  emit-Reported :
      (m : Machine W)
      → CountsFrom 1 m.emitted
      → m.evidence.sequence ≡ length m.emitted
      → All Running m.emitted
      → Reported (emit m)
  unfolding emit
  emit-Reported m counts count running = (
    m.emitted,
    refl,
    CountsFrom-snoc 1 m.emitted (record m.evidence { sequence = suc m.evidence.sequence }) counts
        (omega (arith, count)),
    running,
  )

  abbrev LoopReported : Bool × Machine W → Type 0
  LoopReported (true, m) = Quiet m
  LoopReported (false, m) = Reported m

  module _ (secrets : List (Option String)) (ops : Operations W) where
    run_stages-LoopReported :
        (stages : List String) (m : Machine W)
        → Quiet m
        → LoopReported (run_stages secrets ops stages m)
    unfolding run_stages
    run_stages-LoopReported [] m h = h
    run_stages-LoopReported (stage ∷ rest) m h =
        elim (Attempt-cases (action ops stage m.evidence.target_ids m.world).0) [
          | inl (exc, e) ↦
              rw (LoopReported, run_stages, e) (emit-Reported (stopped exc) h.0 h.1 h.2)
          | inr (targets, e) ↦ elim (Bool-cases (stage == "complete")) [
            | inl t ↦
                rw (LoopReported, run_stages, e, t) (run_stages-LoopReported rest (ended targets) h)
            | inr f ↦
                rw (LoopReported, run_stages, e, f)
                  (run_stages-LoopReported rest (emit (ended targets))
                    (emit-Quiet (ended targets) h))
          ]
        ]
      where
        left : W
        left = (action ops stage m.evidence.target_ids m.world).1

        ended : Dict String → Machine W
        ended targets = record m {
          evidence = end_stage stage rest targets (begin_stage stage m.evidence);
          world = left;
        }

        stopped : Failure → Machine W
        stopped exc = record m {
          evidence = fail secrets stage "partial_failed" exc (begin_stage stage m.evidence);
          world = left;
        }

    finish-Reported : (r : Bool × Machine W) → LoopReported r → Reported (finish r).1
    finish-Reported (false, m) h = h
    finish-Reported (true, m) h =
        emit-Reported
          (record m {
            evidence = record m.evidence {
              current_stage = "complete";
              terminal_state = "succeeded";
            };
          })
          h.0 h.1 h.2

    -- The payloads that an attempt prints are numbered 1, 2, 3, … with no gap; the last one is the
    -- evidence that the attempt ends with, and each earlier one still says "running": success is
    -- printed only at the end.
    pub run_attempt-Reported :
        (id : String) (number : ℕ) (revisions : Dict String) (url : Option String) (w : W)
        → Reported (run_attempt secrets ops (new_evidence id number revisions url) w).1
    unfolding run_attempt
    run_attempt-Reported id number revisions url w = elim (Attempt-cases (ops.preflight w).0) [
      | inl (exc, e) ↦ rw (run_attempt, e) (emit-Reported (stopped exc) quiet.0 quiet.1 quiet.2)
      | inr (u, e) ↦
          rw (run_attempt, e)
            (finish-Reported (run_stages secrets ops mutation_stages (emit ready))
              (run_stages-LoopReported mutation_stages (emit ready) (emit-Quiet ready quiet)))
    ]
      where
        initial : Machine W
        initial = record {
          evidence = new_evidence id number revisions url;
          emitted = [];
          world = w;
        }

        first : Machine W
        first = emit initial

        quiet : Quiet first
        quiet = emit-Quiet initial (tt, refl, tt, refl)

        ready : Machine W
        ready = record first {
          evidence = passed_preflight first.evidence;
          world = (ops.preflight w).1;
        }

        stopped : Failure → Machine W
        stopped exc = record first {
          evidence = fail secrets preflight_stage "operational_failed" exc first.evidence;
          world = (ops.preflight w).1;
        }
