-- ===== src/Tests/Reconcile.antt =====
-- The theorems on observations and their reconciliation, on a deployment of a given revision pair.
use genie_promote_cicd.Prelude.{
  String, ◌≡◌, ◌≢◌, refl, sym, ap, ◌∙◌, true, false, Option, none, some, List, [], ◌∷◌, ◌++◌,
  lookup, is_some, ok, texts_differ,
}
use genie_promote_cicd.ChangeRequest.{
  RevisionPair, ChangeRequestObservation, reject_mismatched_deployment, revision_pair_from_dict,
  revision_pair_to_dict, not_started, make_revision_pair, is_sha,
}
use genie_promote_cicd.ChangeRequest.Rejection.{from_dict-to_dict}
use genie_promote_cicd.Promotions.Backend
use genie_promote_cicd.Promotions.Backend.{Backend}
use genie_promote_cicd.Promotions.Store
use genie_promote_cicd.Promotions.Store.{contains}
use genie_promote_cicd.Reconcile.Defs.{mirror, reconcile, reached, missing, event_types_of}
use genie_promote_cicd.Reconcile.Outcome.{reconcile-appends}
use genie_promote_cicd.Reconcile.Safety.{
  reconcile-reflects, reconcile-idempotent, reconcile-rejects,
}
use genie_promote_cicd.Tests.Samples.{
  store, store-IsConsistent, store-promotion, promotion, approved, other, deployed_with,
  environment,
}

differ : other ≢ approved
differ e = texts_differ "c2" "c1" refl (ap (λ p. p.content_revision) e)

stored : is_some (lookup "p1" store.promotions) ≡ true
stored = ap is_some store-promotion

abbrev good : ChangeRequestObservation
good = deployed_with approved

abbrev rejected : ChangeRequestObservation
rejected = reject_mismatched_deployment (deployed_with other) (some approved)

abbrev after : Backend
after = (reconcile environment promotion good store).1

mirrored : (mirror environment promotion good good.deployment.attempt store).0 ≡ ok tt
unfolding Store.upsert_deployment_attempt Backend.upsert_deployment_attempt Store.create_promotion
    Backend.insert_promotion Store.append_audit_event Backend.insert_audit_event
mirrored = refl

-- The same Change Request without deployment evidence.
abbrev plain : ChangeRequestObservation
plain = record good { deployment = record good.deployment { attempt = none } }

mirrored_rejected :
    (mirror environment promotion rejected rejected.deployment.attempt store).0 ≡ ok tt
unfolding reject_mismatched_deployment Store.upsert_deployment_attempt
    Backend.upsert_deployment_attempt Store.create_promotion Backend.insert_promotion
    Store.append_audit_event Backend.insert_audit_event
mirrored_rejected = refl

passed :
    ((reject_mismatched_deployment good (some approved)).phase ≡ "deployed")
    × ((reject_mismatched_deployment good (some approved)).deployment.revisions ≡ some approved)
    × (not_started (reject_mismatched_deployment good (some approved)).deployment.status ≡ false)
unfolding reject_mismatched_deployment
passed = (refl, refl, refl)

passed_phase : (reject_mismatched_deployment good (some approved)).phase ≢ "revision_mismatch"
passed_phase e = texts_differ "deployed" "revision_mismatch" refl (sym passed.0 ∙ e)

reconcile-appends_example :
    ((reconcile environment promotion good store).0
      ≡ ok (missing (reached good) (event_types_of "p1" store)))
    × (event_types_of "p1" after
        ≡ event_types_of "p1" store ++ missing (reached good) (event_types_of "p1" store))
reconcile-appends_example =
    reconcile-appends environment promotion good store store-IsConsistent stored mirrored

reconcile-rejects_example :
    contains (event_types_of "p1" (reconcile environment promotion rejected store).1) "deployed"
    ≡ contains (event_types_of "p1" store) "deployed"
reconcile-rejects_example =
    reconcile-rejects environment promotion store store-IsConsistent stored (deployed_with other)
      approved other refl refl differ mirrored_rejected

returned :
    (reconcile environment promotion plain store).0
    ≡ ok (missing (reached plain) (event_types_of "p1" store))
returned = (reconcile-appends environment promotion plain store store-IsConsistent stored refl).0

reconcile-reflects_example :
    (contains (missing (reached plain) (event_types_of "p1" store)) "deployed" ≡ true
      → plain.phase ≡ "deployed")
    × (contains (missing (reached plain) (event_types_of "p1" store)) "pr_review_approved" ≡ true
        → plain.review_decision ≡ "approved")
    × (contains (missing (reached plain) (event_types_of "p1" store)) "merged" ≡ true
        → plain.merged ≡ true)
reconcile-reflects_example =
    reconcile-reflects environment promotion plain store
      (missing (reached plain) (event_types_of "p1" store)) returned

reconcile-idempotent_example :
    ((reconcile environment promotion plain (reconcile environment promotion plain store).1).0
      ≡ ok [])
    × (event_types_of "p1"
          (reconcile environment promotion plain (reconcile environment promotion plain store).1).1
        ≡ event_types_of "p1" (reconcile environment promotion plain store).1)
reconcile-idempotent_example =
    reconcile-idempotent environment promotion store store-IsConsistent stored plain refl
      environment refl

abbrev sha : String
sha = "0123456789abcdef0123456789abcdef01234567"

abbrev pair : RevisionPair
pair = record {
  content_revision = "0123456789abcdef0123456789abcdef0123456789abcdef0123456789abcdef";
  engine_revision = sha;
}

abbrev mapping : List (String × Option String)
mapping = ("content_revision", some pair.content_revision) ∷ ("engine_revision", some sha) ∷ []

accepted : revision_pair_from_dict (some mapping) ≡ ok (some pair)
unfolding revision_pair_from_dict make_revision_pair is_sha
accepted = refl

from_dict-to_dict_example :
    revision_pair_from_dict (some (revision_pair_to_dict pair)) ≡ ok (some pair)
from_dict-to_dict_example = from_dict-to_dict (some mapping) pair accepted
