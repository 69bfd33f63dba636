-- ===== src/Tests/Observed.antt =====
-- The status of the merged pull request of Stages, whose reviews were none, and the trail of Samples.
use genie_promote_cicd.Prelude.{
  String, ◌≡◌, refl, ap, not, ◌&&◌, ◌||◌, none, List, is_some, ok, true, false, ◌==◌,
}
use genie_promote_cicd.ChangeRequest.{reject_mismatched_deployment, ChangeRequestObservation}
use genie_promote_cicd.Promotions.Store.{contains}
use genie_promote_cicd.Reconcile.Defs.{mirror, reconcile, reached, missing, event_types_of}
use genie_promote_cicd.Reconcile.Outcome.{reconcile-appends}
use genie_promote_cicd.Reconcile.Observed.{reconcile-observed}
use genie_promote_cicd.Github.Status.{pr_review_decision}
use genie_promote_cicd.Github.Observe.{get_status}
use genie_promote_cicd.Tests.Samples.{
  store, store-IsConsistent, store-promotion, promotion, environment,
}
use genie_promote_cicd.Tests.Stages.{answers}

abbrev observed : ChangeRequestObservation
observed = get_status false answers none

mirrored : (mirror environment promotion observed observed.deployment.attempt store).0 ≡ ok tt
unfolding get_status reject_mismatched_deployment
mirrored = refl

abbrev appended : List String
appended = missing (reached observed) (event_types_of "p1" store)

returned : (reconcile environment promotion observed store).0 ≡ ok appended
returned =
    (reconcile-appends environment promotion observed store store-IsConsistent
      (ap is_some store-promotion) mirrored).0

reconcile-observed_example :
    (contains appended "pr_review_approved" ≡ (
      (true || pr_review_decision 200 answers.reviews == "approved")
      && not (contains (event_types_of "p1" store) "pr_review_approved")))
    × (contains appended "merged" ≡ (true && not (contains (event_types_of "p1" store) "merged")))
reconcile-observed_example =
    reconcile-observed environment promotion false answers none store appended returned
