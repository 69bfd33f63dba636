-- ===== src/Github/Standing.antt =====
-- genie_reviewer/github_app.py: the review decision, against what each reviewer's own reviews say.
use genie_promote_cicd.Prelude.{
  ℕ, String, ◌≡◌, ◌≢◌, ◌↔◌, refl, sym, ap, ◌∙◌, Bool, true, false, not, Option, none, some, List,
  [], ◌∷◌, arith, Bool-cases, inl, inr, ◌==◌, eq_iff, eq_refl, any, any-mem, any-exists,
  if◌then◌else◌, truthy, same_text, or_else, Dict, lookup, values, lookup-insert, values-lookup,
  key_of_values, IsDict, insert-IsDict, eqb, Memᴰ,
}
use genie_promote_cicd.Github.Status.{
  PullReview, remove, consider, latest_reviews, is_decisive, state_of, pr_review_decision,
}

module _ {ℓ} {V : Type ℓ} where
  lookup-remove :
      (k j : String) (d : Dict V) → lookup j (remove k d) ≡ (if k == j then none else lookup j d)
  lookup-remove k j [] = ground arith
  lookup-remove k j ((i, w) ∷ d) =
      ground (arith, eq_iff k j, eq_iff i k, eq_iff i j, lookup-remove k j d)

  remove-IsDict : (k : String) (d : Dict V) → IsDict d → IsDict (remove k d)
  remove-IsDict k [] h = tt
  remove-IsDict k ((j, w) ∷ d) h = elim (Bool-cases (j == k)) [
    | inl t ↦ rw t (remove-IsDict k d h.1)
    | inr f ↦ rw f (ground (arith, lookup-remove k j d, h.0), remove-IsDict k d h.1)
  ]

  -- What the reviews of one login come to: the last decisive one stands, unless one that was
  -- dismissed came after it.
  abbrev pub standing_after : (PullReview → V) → String → Option V → List PullReview → Option V
  standing_after value login before [] = before
  standing_after value login before (r ∷ reviews) =
      standing_after value login
        (if or_else r.login "" == login
          then if is_decisive r.state
            then some (value r)
            else if same_text r.state (some "DISMISSED")
            then none
            else before
          else before)
        reviews

  abbrev pub standing : (PullReview → V) → String → List PullReview → Option V
  standing value login reviews = standing_after value login none reviews

  consider-lookup :
      (value : PullReview → V) (login : String) (d : Dict V) (r : PullReview)
      → login == "" ≡ false
      → lookup login (consider value d r) ≡ (
          if or_else r.login "" == login
          then if is_decisive r.state
            then some (value r)
            else if same_text r.state (some "DISMISSED")
            then none
            else lookup login d
          else lookup login d)
  consider-lookup value login d r named = ground (
    arith,
    lookup-insert (or_else r.login "") login (value r) d,
    lookup-remove (or_else r.login "") login d,
    eq_iff (or_else r.login "") login,
    eq_iff (or_else r.login "") "",
  )

  latest-standing :
      (value : PullReview → V) (login : String) (d : Dict V) (reviews : List PullReview)
      → login == "" ≡ false
      → lookup login (latest_reviews value d reviews)
        ≡ standing_after value login (lookup login d) reviews
  unfolding latest_reviews
  latest-standing value login d [] named = refl
  latest-standing value login d (r ∷ reviews) named =
      latest-standing value login (consider value d r) reviews named
      ∙ ap (λ o. standing_after value login o reviews) (consider-lookup value login d r named)

  consider-unnamed :
      (value : PullReview → V) (d : Dict V) (r : PullReview)
      → lookup "" d ≡ none
      → lookup "" (consider value d r) ≡ none
  consider-unnamed value d r h = ground (
    arith,
    lookup-insert (or_else r.login "") "" (value r) d,
    lookup-remove (or_else r.login "") "" d,
    h,
  )

  consider-IsDict :
      (value : PullReview → V) (d : Dict V) (r : PullReview)
      → IsDict d
      → IsDict (consider value d r)
  consider-IsDict value d r h = elim (Bool-cases (not (truthy r.login))) [
    | inl unnamed ↦ rw unnamed h
    | inr named ↦ elim (Bool-cases (is_decisive r.state)) [
      | inl decisive ↦ rw (named, decisive) (insert-IsDict (or_else r.login "") (value r) d h)
      | inr other ↦ elim (Bool-cases (same_text r.state (some "DISMISSED"))) [
        | inl dismissed ↦ rw (named, other, dismissed) (remove-IsDict (or_else r.login "") d h)
        | inr ignored ↦ rw (named, other, ignored) h
      ]
    ]
  ]

  latest-IsDict :
      (value : PullReview → V) (d : Dict V) (reviews : List PullReview)
      → IsDict d
      → lookup "" d ≡ none
      → IsDict (latest_reviews value d reviews)
        × (lookup "" (latest_reviews value d reviews) ≡ none)
  unfolding latest_reviews
  latest-IsDict value d [] h k = (h, k)
  latest-IsDict value d (r ∷ reviews) h k =
      latest-IsDict value (consider value d r) reviews (consider-IsDict value d r h)
        (consider-unnamed value d r k)

  -- The values that are kept are those that stand for a reviewer.
  standing_of_values :
      (value : PullReview → V) (reviews : List PullReview) (v : V)
      → Memᴰ v (values (latest_reviews value [] reviews))
      → (login : String) × (login == "" ≡ false) × (standing value login reviews ≡ some v)
  standing_of_values value reviews v m =
      let (dict, unnamed) = latest-IsDict value [] reviews tt refl in
      let (login, found) = key_of_values (latest_reviews value [] reviews) dict m in
      let named : login == "" ≡ false = ground (arith, eq_iff login "", found, unnamed) in
      (login, named, sym (latest-standing value login [] reviews named) ∙ found)

  values_of_standing :
      (value : PullReview → V) (reviews : List PullReview) (login : String) (v : V)
      → login == "" ≡ false
      → standing value login reviews ≡ some v
      → Memᴰ v (values (latest_reviews value [] reviews))
  values_of_standing value reviews login v named h =
      values-lookup login (latest_reviews value [] reviews)
        (latest-standing value login [] reviews named ∙ h)

any_state :
    (reviews : List PullReview) (s : String)
    → (any (λ t. t == s) (values (latest_reviews state_of [] reviews)) ≡ true)
      ↔ ((login : String) × (login == "" ≡ false) × (standing state_of login reviews ≡ some s))
any_state reviews s = (
  λ h.
      let (t, m, same) = any-exists (λ t. t == s) (values (latest_reviews state_of [] reviews)) h in
      let (login, named, stands) = standing_of_values state_of reviews t m in
      (login, named, stands ∙ ap some ((eq_iff t s).0 same)),
  λ (login, named, stands).
      any-mem (λ t. t == s) (values_of_standing state_of reviews login s named stands) (eq_refl s),
)

false_not_true : {b : Bool} → b ≡ false → b ≡ true → ⊥
false_not_true h k = cc

abbrev review_outcome : Bool → Bool → Bool → String
review_outcome read changes approved =
    if not read
    then "review_required"
    else if changes
    then "changes_requested"
    else if approved
    then "approved"
    else "review_required"

decided :
    (read changes approved : Bool)
    → (review_outcome read changes approved ≡ "approved")
      ↔ ((read ≡ true) × (approved ≡ true) × (changes ≡ false))
decided true true approved = (λ h. absurd (cc), λ h. absurd (false_not_true h.2 refl))
decided true false true = (λ h. (refl, refl, refl), λ h. refl)
decided true false false = (λ h. absurd (cc), λ h. absurd (false_not_true refl h.1))
decided false changes approved = (λ h. absurd (cc), λ h. absurd (false_not_true refl h.0))

none_true : (b : Bool) → (b ≡ true → ⊥) → b ≡ false
none_true true h = absurd (h refl)
none_true false h = refl

-- The decision is "approved" exactly where the reviews were read with status 200, the reviews of some
-- reviewer come to a standing approval, and those of none come to standing requested changes. A
-- reviewer's reviews come to the last one that approves or requests changes, unless a later one of the
-- same reviewer was dismissed; other reviews do not count.
pub pr_review_decision-approved_iff :
    (status : ℕ) (reviews : List PullReview)
    → (pr_review_decision status reviews ≡ "approved") ↔ (
        (eqb status 200 ≡ true)
        × ((login : String) × (login == "" ≡ false)
            × (standing state_of login reviews ≡ some "APPROVED"))
        × ((login : String)
            → login == "" ≡ false
            → standing state_of login reviews ≢ some "CHANGES_REQUESTED"))
unfolding pr_review_decision
pr_review_decision-approved_iff status [] =
    (λ h. absurd (cc), λ h. let never : none ≡ some "APPROVED" = h.1.2 in absurd (cc))
pr_review_decision-approved_iff status (r ∷ reviews) =
    let changes = any_state (r ∷ reviews) "CHANGES_REQUESTED" in
    let approvals = any_state (r ∷ reviews) "APPROVED" in
    let (to, of) =
      decided (eqb status 200)
        (any (λ t. t == "CHANGES_REQUESTED") (values (latest_reviews state_of [] (r ∷ reviews))))
        (any (λ t. t == "APPROVED") (values (latest_reviews state_of [] (r ∷ reviews)))) in
    (
      λ h.
          let (read, approved, unchanged) = to h in
          (
            read,
            approvals.0 approved,
            λ login named stands. false_not_true unchanged (changes.1 (login, named, stands)),
          ),
      λ (read, approved, unchanged). of (
        read,
        approvals.1 approved,
        none_true _ (λ t. let (login, named, stands) = changes.0 t in unchanged login named stands),
      ),
    )
