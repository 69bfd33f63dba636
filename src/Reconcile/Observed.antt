-- ===== src/Reconcile/Observed.antt =====
-- app/reconcile.py on the status of genie_reviewer/github_app.py: the review and the merge.
use genie_promote_cicd.Prelude.{
  String, ◌≡◌, refl, ap, ◌∙◌, Bool, true, false, not, ◌&&◌, ◌||◌, Option, List, arith, ◌==◌,
  if◌then◌else◌, ok,
}
use genie_promote_cicd.ChangeRequest.{RevisionPair}
use genie_promote_cicd.ChangeRequest.Rejection.{reject_mismatched_deployment-kept}
use genie_promote_cicd.Promotions.Types.{Promotion}
use genie_promote_cicd.Promotions.Backend.{Backend}
use genie_promote_cicd.Promotions.Store.{contains}
use genie_promote_cicd.Reconcile.Defs.{Environment, reconcile, reached, event_types_of}
use genie_promote_cicd.Reconcile.Safety.{
  contains-missing, reached-approved, reached-merged, reconcile-returned,
}
use genie_promote_cicd.Github.Status.{pr_review_decision}
use genie_promote_cicd.Github.Observe.{Answers, observe, get_status}

is_approved :
    (merged : Bool) (d : String)
    → ((if merged then "approved" else d) == "approved") ≡ (merged || d == "approved")
is_approved true d = refl
is_approved false d = refl

-- Where `reconcile` returns from a status that `get_status` read, "pr_review_approved" is among the
-- events exactly where the pull request is merged or the reviews decide "approved", and the trail did
-- not have it; and "merged" exactly where the pull request is merged, and the trail did not have it.
pub reconcile-observed :
    (env : Environment) (p : Promotion) (include_evidence : Bool) (a : Answers)
    (approved : Option RevisionPair) (b : Backend) (ms : List String)
    → (reconcile env p (get_status include_evidence a approved) b).0 ≡ ok ms
    → (contains ms "pr_review_approved" ≡ (
        (a.pull.merged || pr_review_decision a.review_status a.reviews == "approved")
        && not (contains (event_types_of p.id b) "pr_review_approved")))
      × (contains ms "merged" ≡ (a.pull.merged && not (contains (event_types_of p.id b) "merged")))
unfolding get_status
reconcile-observed env p include_evidence a approved b ms h =
    let status = get_status include_evidence a approved in
    let old = event_types_of p.id b in
    let (decision, merged) =
      reject_mismatched_deployment-kept (observe include_evidence a) approved in
    let returned = reconcile-returned env p status b ms h in
    let review : contains (reached status) "pr_review_approved"
        ≡ (a.pull.merged || pr_review_decision a.review_status a.reviews == "approved") =
      reached-approved status
      ∙ ap (λ d. d == "approved") decision
      ∙ is_approved a.pull.merged (pr_review_decision a.review_status a.reviews) in
    let merge : contains (reached status) "merged" ≡ a.pull.merged =
      reached-merged status ∙ merged in
    (
      ap (λ l. contains l "pr_review_approved") returned
          ∙ contains-missing (reached status) old "pr_review_approved"
          ∙ first (contains old "pr_review_approved") review,
      ap (λ l. contains l "merged") returned
          ∙ contains-missing (reached status) old "merged"
          ∙ first (contains old "merged") merge,
    )
  where
    first : {f g : Bool} (o : Bool) → f ≡ g → ((f && not o) && true) ≡ (g && not o)
    first o e = ground (arith, e)
