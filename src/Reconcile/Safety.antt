-- ===== src/Reconcile/Safety.antt =====
-- app/reconcile.py: repeated runs of `reconcile`, and its events against the status.
use mathlib.Core.List.{append-nil}
use genie_promote_cicd.Prelude.{
  String, ◌≡◌, ◌≢◌, refl, sym, ap, ◌∙◌, Bool, true, false, not, ◌&&◌, ◌||◌, some, List, [], ◌∷◌,
  ◌++◌, arith, Bool-cases, inl, inr, ◌==◌, eq_iff, eq_refl, any-append, any-mem, select, lookup,
  is_some, ok, and_then-ok, All, Memᴰ, All-of_mem,
}
use genie_promote_cicd.ChangeRequest.{
  RevisionPair, ChangeRequestObservation, reject_mismatched_deployment, not_started,
}
use genie_promote_cicd.ChangeRequest.Rejection.{reject_mismatched_deployment-rejects}
use genie_promote_cicd.Promotions.Types.{Promotion}
use genie_promote_cicd.Promotions.Backend.{Backend}
use genie_promote_cicd.Promotions.Store.{contains}
use genie_promote_cicd.Promotions.Invariant.{IsConsistent}
use genie_promote_cicd.Reconcile.Defs.{
  Environment, mirror, append_events, milestone_row, gather_facts, refresh, reconcile, reached,
  missing, milestone_order, event_types_of,
}
use genie_promote_cicd.Reconcile.Milestones.{reconcile-IsConsistent}
use genie_promote_cicd.Reconcile.Outcome.{reconcile-appends, reconcile-stored}

contains-append :
    (xs ys : List String) (m : String) → contains (xs ++ ys) m ≡ (contains xs m || contains ys m)
contains-append xs ys m = any-append (λ x. x == m) xs ys

contains-select :
    (p : String → Bool) (ms : List String) (m : String)
    → contains (select p ms) m ≡ (p m && contains ms m)
contains-select p [] m = ground arith
contains-select p (n ∷ ms) m = elim (Bool-cases (n == m)) [
  | inl same ↦ let e : n ≡ m = (eq_iff n m).0 same in ground (arith, ap p e, contains-select p ms m)
  | inr other ↦ ground (arith, contains-select p ms m)
]

pub contains-missing :
    (found old : List String) (m : String)
    → contains (missing found old) m
      ≡ ((contains found m && not (contains old m)) && contains milestone_order m)
unfolding missing
contains-missing found old m =
    contains-select (λ n. contains found n && not (contains old n)) milestone_order m

select_none : (p : String → Bool) (ms : List String) → All (λ m. p m ≡ false) ms → select p ms ≡ []
select_none p [] h = refl
select_none p (m ∷ ms) h = ground (arith, h.0, select_none p ms h.1)

none_missing :
    (found old : List String)
    → ((m : String) → Memᴰ m milestone_order → (contains found m && not (contains old m)) ≡ false)
    → missing found old ≡ []
unfolding missing
none_missing found old h =
    select_none (λ m. contains found m && not (contains old m)) milestone_order
      (All-of_mem _ milestone_order h)

-- What has just been appended is not missing.
missing_again : (found old : List String) → missing found (old ++ missing found old) ≡ []
missing_again found old =
    let new = missing found old in
    let absent : (m : String)
        → Memᴰ m milestone_order
        → (contains found m && not (contains (old ++ new) m)) ≡ false =
      λ m t.
        is_recorded (contains found m) (contains old m) (contains (old ++ new) m) (contains new m)
          (contains milestone_order m) (contains-append old new m) (contains-missing found old m)
          (any-mem (λ n. n == m) t (eq_refl m)) in
    none_missing found (old ++ new) absent
  where
    is_recorded :
        (f o on n k : Bool)
        → on ≡ (o || n)
        → n ≡ ((f && not o) && k)
        → k ≡ true
        → (f && not on) ≡ false
    is_recorded f o on n k a b c = ground arith

reached-deployed :
    (status : ChangeRequestObservation)
    → contains (reached status) "deployed" ≡ status.phase == "deployed"
unfolding reached
reached-deployed status = ground arith

pub reached-approved :
    (status : ChangeRequestObservation)
    → contains (reached status) "pr_review_approved" ≡ status.review_decision == "approved"
unfolding reached
reached-approved status = ground arith

pub reached-merged :
    (status : ChangeRequestObservation) → contains (reached status) "merged" ≡ status.merged
unfolding reached
reached-merged status = ground arith

pub reconcile-returned :
    (env : Environment) (p : Promotion) (status : ChangeRequestObservation) (b : Backend)
    (ms : List String)
    → (reconcile env p status b).0 ≡ ok ms
    → ms ≡ missing (reached status) (event_types_of p.id b)
unfolding reconcile
reconcile-returned env p status b ms h =
    let (u, first, rest) = and_then-ok (mirror env p status status.deployment.attempt) _ b ms h in
    let (v, second, rest2) =
      and_then-ok
        (append_events (milestone_row env p status (gather_facts env p to_append)) to_append) _ _ ms
        rest in
    let (w, third, last) = and_then-ok (refresh env p status to_append) _ _ ms rest2 in ground arith
  where
    to_append : List String
    to_append = missing (reached status) (event_types_of p.id b)

-- Where `reconcile` returns, "deployed" is among the events only if the status has the phase
-- "deployed", "pr_review_approved" only if its review decision is "approved", and "merged" only if it
-- says that the pull request is merged.
pub reconcile-reflects :
    (env : Environment) (p : Promotion) (status : ChangeRequestObservation) (b : Backend)
    (ms : List String)
    → (reconcile env p status b).0 ≡ ok ms
    → (contains ms "deployed" ≡ true → status.phase ≡ "deployed")
      × (contains ms "pr_review_approved" ≡ true → status.review_decision ≡ "approved")
      × (contains ms "merged" ≡ true → status.merged ≡ true)
reconcile-reflects env p status b ms h =
    let returned = reconcile-returned env p status b ms h in
    (
      λ k.
          (eq_iff status.phase "deployed").0
            (sym (reached-deployed status) ∙ only "deployed" returned k),
      λ k.
          (eq_iff status.review_decision "approved").0
            (sym (reached-approved status) ∙ only "pr_review_approved" returned k),
      λ k. sym (reached-merged status) ∙ only "merged" returned k,
    )
  where
    only :
        (m : String)
        → ms ≡ missing (reached status) (event_types_of p.id b)
        → contains ms m ≡ true
        → contains (reached status) m ≡ true
    only m returned k = ground (
      arith,
      ap (λ l. contains l m) returned,
      contains-missing (reached status) (event_types_of p.id b) m,
    )

module _ (env : Environment) (p : Promotion) (b : Backend) (h : IsConsistent b)
    (stored : is_some (lookup p.id b.promotions) ≡ true) where
  -- In a consistent store that has the promotion, a second run of `reconcile` on the same status
  -- appends nothing: where both runs' deployment evidence is accepted it returns the empty list, and
  -- the promotion's trail keeps its event types.
  pub reconcile-idempotent :
      (status : ChangeRequestObservation)
      → (mirror env p status status.deployment.attempt b).0 ≡ ok tt
      → (again : Environment)
      → (mirror again p status status.deployment.attempt (reconcile env p status b).1).0 ≡ ok tt
      → ((reconcile again p status (reconcile env p status b).1).0 ≡ ok [])
        × (event_types_of p.id (reconcile again p status (reconcile env p status b).1).1
            ≡ event_types_of p.id (reconcile env p status b).1)
  reconcile-idempotent status mirrored again remirrored =
      let c = (reconcile env p status b).1 in
      let k = reconcile-IsConsistent env p status b h in
      let old = event_types_of p.id b in
      let types = (reconcile-appends env p status b h stored mirrored).1 in
      let nothing : missing (reached status) (event_types_of p.id c) ≡ [] =
        ap (missing (reached status)) types ∙ missing_again (reached status) old in
      let (result, trail) =
        reconcile-appends again p status c k (reconcile-stored env p status b h stored mirrored)
          remirrored in
      (
        result ∙ ap ok nothing,
        trail ∙ ap (λ l. event_types_of p.id c ++ l) nothing ∙ append-nil (event_types_of p.id c),
      )

  -- A deployment that ran another revision pair than the approved one is never recorded as deployed:
  -- with the approved pair compared first, `reconcile` leaves the promotion's trail with "deployed"
  -- in it only if it was there before.
  pub reconcile-rejects :
      (observation : ChangeRequestObservation) (approved ran : RevisionPair)
      → observation.deployment.revisions ≡ some ran
      → not_started observation.deployment.status ≡ false
      → ran ≢ approved
      → (mirror env p
          (reject_mismatched_deployment observation (some approved))
          (reject_mismatched_deployment observation (some approved)).deployment.attempt
          b).0
        ≡ ok tt
      → contains
          (event_types_of p.id
            (reconcile env p (reject_mismatched_deployment observation (some approved)) b).1)
          "deployed"
        ≡ contains (event_types_of p.id b) "deployed"
  reconcile-rejects observation approved ran known started differ mirrored =
      let status = reject_mismatched_deployment observation (some approved) in
      let old = event_types_of p.id b in
      let phase =
        (reject_mismatched_deployment-rejects observation approved ran known started differ).0 in
      let unreached : contains (reached status) "deployed" ≡ false =
        reached-deployed status ∙ ap (λ x. x == "deployed") phase in
      let types = (reconcile-appends env p status b h stored mirrored).1 in
      ap (λ l. contains l "deployed") types
      ∙ contains-append old (missing (reached status) old) "deployed"
      ∙ no_more (contains (reached status) "deployed") (contains old "deployed")
          (contains (missing (reached status) old) "deployed") (contains milestone_order "deployed")
          unreached (contains-missing (reached status) old "deployed")
    where
      no_more : (f o n k : Bool) → f ≡ false → n ≡ ((f && not o) && k) → (o || n) ≡ o
      no_more f o n k a c = ground arith
