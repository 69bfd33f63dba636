-- ===== src/Github/Phase.antt =====
-- genie_reviewer/github_app.py: the phase of a promotion and the verdict on its checks.
use genie_promote_cicd.Prelude.{
  ℕ, String, ◌≡◌, ◌↔◌, refl, sym, ap, ◌∙◌, subst, Bool, true, false, not, ◌&&◌, Option, none, some,
  List, [], ◌∷◌, arith, Bool-cases, Option-cases, inl, inr, ◌==◌, eq_iff, any, all, select,
  mem-select, find_first, find_first-mem, if◌then◌else◌, truthy, same_text, Memᴰ, texts_differ,
  or_else,
}
use genie_promote_cicd.Github.Status.{
  CheckRun, is_completed, is_among, passing, aggregate_checks, DeployStatus, derive_phase, Approval,
  WorkflowRun, is_deploy, deploy_of, deploy_status,
}

same_text-eq : (a b : Option String) → same_text a b ≡ true → a ≡ b
same_text-eq none none h = refl
same_text-eq none (some t) h = absurd (cc)
same_text-eq (some s) none h = absurd (cc)
same_text-eq (some s) (some t) h = ap some ((eq_iff s t).0 h)

unmerged :
    (closed pending failing : Bool)
    → Path String
        (if closed
          then "closed"
          else if pending
          then "checks_running"
          else if failing
          then "checks_failed"
          else "open")
        "deployed"
    → ⊥
unmerged true pending failing h = texts_differ "closed" "deployed" refl h
unmerged false true failing h = texts_differ "checks_running" "deployed" refl h
unmerged false false true h = texts_differ "checks_failed" "deployed" refl h
unmerged false false false h = texts_differ "open" "deployed" refl h

merged_phase :
    (waiting busy completed success : Bool)
    → Path String
        (if waiting
          then "awaiting_approval"
          else if busy
          then "deploying"
          else if completed
          then if success then "deployed" else "deploy_failed"
          else "merged")
        "deployed"
    → (waiting ≡ false) × (completed ≡ true) × (success ≡ true)
merged_phase true busy completed success h =
    absurd (texts_differ "awaiting_approval" "deployed" refl h)
merged_phase false true completed success h = absurd (texts_differ "deploying" "deployed" refl h)
merged_phase false false true true h = (refl, refl, refl)
merged_phase false false true false h = absurd (texts_differ "deploy_failed" "deployed" refl h)
merged_phase false false false success h = absurd (texts_differ "merged" "deployed" refl h)

pub derive_phase-deployed :
    (pr_state : Option String) (merged : Bool) (checks : String) (deploy : DeployStatus)
    → derive_phase pr_state merged checks deploy ≡ "deployed"
    → (merged ≡ true)
      × (deploy.waiting_approval ≡ false)
      × (deploy.status ≡ some "completed")
      × (deploy.conclusion ≡ some "success")
unfolding derive_phase
derive_phase-deployed pr_state false checks deploy h =
    absurd
      (unmerged (same_text pr_state (some "closed")) (checks == "pending") (checks == "failure") h)
derive_phase-deployed pr_state true checks deploy h =
    let (waiting, completed, success) =
      merged_phase deploy.waiting_approval (is_among ("queued" ∷ "in_progress" ∷ []) deploy.status)
        (same_text deploy.status (some "completed")) (same_text deploy.conclusion (some "success"))
        h in
    (
      refl,
      waiting,
      same_text-eq deploy.status (some "completed") completed,
      same_text-eq deploy.conclusion (some "success") success,
    )

-- A run that was found gives its own status.
deploy_of-completed :
    (approvals : Option ℕ → ℕ × List Approval) (p : WorkflowRun → Bool) (runs : List WorkflowRun)
    → (deploy_of approvals (find_first p runs)).status ≡ some "completed"
    → (run : WorkflowRun) × Memᴰ run runs
      × (p run ≡ true)
      × (run.status ≡ some "completed")
      × (run.conclusion ≡ (deploy_of approvals (find_first p runs)).conclusion)
deploy_of-completed approvals p runs h = elim (Option-cases (find_first p runs)) [
  | inl absent ↦ absurd (never (ap (λ o. (deploy_of approvals o).status) (sym absent) ∙ h))
  | inr (run, found) ↦
      let (there, matches) = find_first-mem p runs found in
      (
        run,
        there,
        matches,
        ap (λ o. (deploy_of approvals o).status) (sym found) ∙ h,
        ap (λ o. (deploy_of approvals o).conclusion) (sym found),
      )
]
  where
    never : Path (Option String) (some "none") (some "completed") → ⊥
    never e = texts_differ "none" "completed" refl (ap (λ o. or_else o "") e)

-- A promotion with a merge commit is "deployed" only if a deploy run of that very commit, among the
-- workflow runs that were read, is completed with the conclusion "success", and only if the pull
-- request is merged: a run of another commit is never taken for it.
pub deploy_status-own :
    (approvals : Option ℕ → ℕ × List Approval) (runs : List WorkflowRun) (pr_state : Option String)
    (merged : Bool) (checks sha : String)
    → truthy (some sha) ≡ true
    → derive_phase pr_state merged checks (deploy_status approvals runs (some sha)) ≡ "deployed"
    → (merged ≡ true)
      × ((run : WorkflowRun) × Memᴰ run runs
          × (is_deploy run ≡ true)
          × (run.head_sha ≡ some sha)
          × (run.status ≡ some "completed")
          × (run.conclusion ≡ some "success"))
unfolding deploy_status
deploy_status-own approvals runs pr_state merged checks sha given h =
    let (is_merged, waiting, completed, success) =
      derive_phase-deployed pr_state merged checks (deploy_status approvals runs (some sha)) h in
    let own : deploy_status approvals runs (some sha)
        ≡ deploy_of approvals
            (find_first (λ r. same_text r.head_sha (some sha)) (select is_deploy runs)) =
      rw given refl in
    let (run, there, matches, done, conclusion) =
      deploy_of-completed approvals (λ r. same_text r.head_sha (some sha)) (select is_deploy runs)
        (ap (λ d. d.status) (sym own) ∙ completed) in
    let (listed, deploys) = mem-select is_deploy runs there in
    (
      is_merged,
      (
        run,
        listed,
        deploys,
        same_text-eq run.head_sha (some sha) matches,
        done,
        conclusion ∙ ap (λ d. d.conclusion) (sym own) ∙ success,
      ),
    )

abbrev pub is_empty : List CheckRun → Bool
is_empty [] = true
is_empty (r ∷ runs) = false

any-not :
    (p : CheckRun → Bool) (runs : List CheckRun) → any (λ r. not (p r)) runs ≡ not (all p runs)
any-not p [] = refl
any-not p (r ∷ runs) = ground (arith, any-not p runs)

all_both :
    (p q : CheckRun → Bool) (runs : List CheckRun)
    → all (λ r. p r && q r) runs ≡ (all p runs && all q runs)
all_both p q [] = refl
all_both p q (r ∷ runs) = ground (arith, all_both p q runs)

passing-not_required :
    (c : Option String) → is_among passing c ≡ true → same_text c (some "action_required") ≡ false
passing-not_required none h = refl
passing-not_required (some s) h = elim (Bool-cases (s == "action_required")) [
  | inl same ↦
      let failing : is_among passing (some "action_required") ≡ true =
        subst (λ t. is_among passing (some t) ≡ true) ((eq_iff s "action_required").0 same) h in
      absurd (cc)
  | inr other ↦ other
]

none_required :
    (runs : List CheckRun)
    → all (λ r. is_among passing r.conclusion) runs ≡ true
    → any (λ r. same_text r.conclusion (some "action_required")) runs ≡ false
none_required [] h = refl
none_required (r ∷ runs) h =
    let (first, rest) =
      both (is_among passing r.conclusion) (all (λ q. is_among passing q.conclusion) runs) h in
    rw (passing-not_required r.conclusion first, none_required runs rest) refl
  where
    both : (a b : Bool) → (a && b) ≡ true → (a ≡ true) × (b ≡ true)
    both a b h = (ground arith, ground arith)

abbrev verdict : Bool → Bool → Bool → String
verdict pending required failing =
    if pending
    then "pending"
    else if required
    then "pending"
    else if failing
    then "failure"
    else "success"

verdict-success :
    (completed required passed : Bool)
    → (passed ≡ true → required ≡ false)
    → (verdict (not completed) required (not passed) ≡ "success") ↔ ((completed && passed) ≡ true)
verdict-success true required true h = (λ k. refl, λ k. rw (h refl) refl)
verdict-success true true false h =
    (λ k. absurd (texts_differ "pending" "success" refl k), λ k. absurd (cc))
verdict-success true false false h =
    (λ k. absurd (texts_differ "failure" "success" refl k), λ k. absurd (cc))
verdict-success false required passed h =
    (λ k. absurd (texts_differ "pending" "success" refl k), λ k. absurd (cc))

-- The verdict on a pull request's checks is "success" exactly where there is a check run and each of
-- them is completed with a passing conclusion.
pub aggregate_checks-success_iff :
    (runs : List CheckRun)
    → (aggregate_checks runs ≡ "success") ↔ (
        (not (is_empty runs) && all (λ r. is_completed r && is_among passing r.conclusion) runs)
        ≡ true)
unfolding aggregate_checks
aggregate_checks-success_iff [] =
    (λ h. absurd (texts_differ "none" "success" refl h), λ h. absurd (cc))
aggregate_checks-success_iff (run ∷ more) =
    let runs = run ∷ more in
    let e =
      verdict-success (all is_completed runs)
        (any (λ r. same_text r.conclusion (some "action_required")) runs)
        (all (λ r. is_among passing r.conclusion) runs) (none_required runs) in
    subst (λ (b : Bool). (aggregate_checks runs ≡ "success") ↔ (b ≡ true))
      (sym (all_both is_completed (λ r. is_among passing r.conclusion) runs))
      (subst
        (λ (b : Bool).
          (verdict b (any (λ r. same_text r.conclusion (some "action_required")) runs)
              (any (λ r. not (is_among passing r.conclusion)) runs)
            ≡ "success")
          ↔ ((all is_completed runs && all (λ r. is_among passing r.conclusion) runs) ≡ true))
        (sym (any-not is_completed runs))
        (subst
          (λ (b : Bool).
            (verdict (not (all is_completed runs))
                (any (λ r. same_text r.conclusion (some "action_required")) runs) b
              ≡ "success")
            ↔ ((all is_completed runs && all (λ r. is_among passing r.conclusion) runs) ≡ true))
          (sym (any-not (λ r. is_among passing r.conclusion) runs)) e))
