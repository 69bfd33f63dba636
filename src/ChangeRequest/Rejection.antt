-- ===== src/ChangeRequest/Rejection.antt =====
-- What `reject_mismatched_deployment` lets through, and the round trip of a revision pair.
use genie_promote_cicd.Prelude.{
  String, List, [], ◌∷◌, true, false, ◌≡◌, ◌≢◌, refl, Option-cases, inl, inr, Option, none, some,
  ok, arith, eq_iff, eq_refl, Bool-cases, or_else,
}
use genie_promote_cicd.ChangeRequest.Types.{RevisionPair, ChangeRequestObservation}
use genie_promote_cicd.ChangeRequest.Revisions.{
  make_revision_pair, get_text, revision_pair_from_dict, revision_pair_to_dict,
  reject_mismatched_deployment, same_pair, not_started,
}

pub same_pair-eq : (a b : RevisionPair) → same_pair a b ≡ true → a ≡ b
same_pair-eq a b h = ground (
  arith,
  eq_iff a.content_revision b.content_revision,
  eq_iff a.engine_revision b.engine_revision,
)

pub same_pair_refl : (a : RevisionPair) → same_pair a a ≡ true
same_pair_refl a = ground (arith, eq_refl a.content_revision, eq_refl a.engine_revision)

module _ (observation : ChangeRequestObservation) (approved ran : RevisionPair)
    (known : observation.deployment.revisions ≡ some ran)
    (started : not_started observation.deployment.status ≡ false) where
  -- A deployment that has started and whose revision pair is known to differ from the approved one
  -- is reported in the phase "revision_mismatch", as rejected and with the conclusion "failure"; its
  -- status, revisions and approver are reported as observed.
  pub reject_mismatched_deployment-rejects :
      ran ≢ approved
      → (reject_mismatched_deployment observation (some approved)).phase ≡ "revision_mismatch"
        × ((reject_mismatched_deployment observation (some approved)).deployment.rejected ≡ true)
        × ((reject_mismatched_deployment observation (some approved)).deployment.conclusion
            ≡ some "failure")
        × ((reject_mismatched_deployment observation (some approved)).deployment.status
            ≡ observation.deployment.status)
        × ((reject_mismatched_deployment observation (some approved)).deployment.revisions
            ≡ some ran)
        × ((reject_mismatched_deployment observation (some approved)).deployment.approver
            ≡ observation.deployment.approver)
  unfolding reject_mismatched_deployment
  reject_mismatched_deployment-rejects differ = elim (Bool-cases (same_pair ran approved)) [
    | inl same ↦ absurd (differ (same_pair-eq ran approved same))
    | inr other ↦ ground (arith)
  ]

-- An observation that still shows a started deployment in a phase other than "revision_mismatch", or
-- did so before, ran the approved pair or an unknown one: whenever the approved pair is given and the
-- reported phase is not "revision_mismatch", the observation is passed on unchanged, and a known
-- revision pair of a started deployment is the approved one.
pub reject_mismatched_deployment-approved :
    (observation : ChangeRequestObservation) (approved ran : RevisionPair)
    → (reject_mismatched_deployment observation (some approved)).phase ≢ "revision_mismatch"
    → (reject_mismatched_deployment observation (some approved)).deployment.revisions ≡ some ran
    → not_started (reject_mismatched_deployment observation (some approved)).deployment.status
      ≡ false
    → (reject_mismatched_deployment observation (some approved) ≡ observation) × (ran ≡ approved)
unfolding reject_mismatched_deployment
reject_mismatched_deployment-approved observation approved ran phase known started =
    ground (arith, same_pair-eq ran approved)

-- An observation that is not reported as a mismatch is passed on.
pub reject_mismatched_deployment-same :
    (observation : ChangeRequestObservation) (approved : RevisionPair)
    → (reject_mismatched_deployment observation (some approved)).phase ≢ "revision_mismatch"
    → reject_mismatched_deployment observation (some approved) ≡ observation
unfolding reject_mismatched_deployment
reject_mismatched_deployment-same observation approved phase = ground arith

make_revision_pair-shas :
    (content engine : String) (p : RevisionPair)
    → make_revision_pair content engine ≡ ok p
    → (p.content_revision ≡ content)
      × (p.engine_revision ≡ engine)
      × (make_revision_pair p.content_revision p.engine_revision ≡ ok p)
unfolding make_revision_pair
make_revision_pair-shas content engine p h = ground arith

from_dict-make :
    (value : Option (List (String × Option String))) (p : RevisionPair)
    → revision_pair_from_dict value ≡ ok (some p)
    → (make_revision_pair p.content_revision p.engine_revision ≡ ok p)
unfolding revision_pair_from_dict
from_dict-make none p h = absurd (cc)
from_dict-make (some []) p h = absurd (cc)
from_dict-make (some (entry ∷ more)) p h = ground (
  arith,
  make_revision_pair-shas (or_else (get_text "content_revision" (entry ∷ more)) "")
      (or_else (get_text "engine_revision" (entry ∷ more)) "") p,
)

-- Reading the mapping that `to_dict` writes gives the pair back, for every pair that `from_dict` has
-- accepted.
pub from_dict-to_dict :
    (value : Option (List (String × Option String))) (p : RevisionPair)
    → revision_pair_from_dict value ≡ ok (some p)
    → revision_pair_from_dict (some (revision_pair_to_dict p)) ≡ ok (some p)
unfolding revision_pair_from_dict revision_pair_to_dict
from_dict-to_dict value p h = ground (arith, from_dict-make value p h)

-- The comparison with the approved pair leaves the review and the merge as they were observed.
pub reject_mismatched_deployment-kept :
    (o : ChangeRequestObservation) (approved : Option RevisionPair)
    → ((reject_mismatched_deployment o approved).review_decision ≡ o.review_decision)
      × ((reject_mismatched_deployment o approved).merged ≡ o.merged)
unfolding reject_mismatched_deployment
reject_mismatched_deployment-kept o none = (refl, refl)
reject_mismatched_deployment-kept o (some approved) =
    elim (Bool-cases (not_started o.deployment.status)) [
      | inl t ↦ rw t (refl, refl)
      | inr f ↦ elim (Option-cases o.deployment.revisions) [
        | inl unknown ↦ rw (f, unknown) (refl, refl)
        | inr (ran, known) ↦ elim (Bool-cases (same_pair ran approved)) [
          | inl t ↦ rw (f, known) (rw t (refl, refl))
          | inr g ↦ rw (f, known) (rw g (refl, refl))
        ]
      ]
    ]
