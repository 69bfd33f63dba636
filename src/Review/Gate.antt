-- ===== src/Review/Gate.antt =====
-- genie_reviewer/review_core.py: the severity gate, on merged findings.
use mathlib.Core.List.{append-nil}
use genie_promote_cicd.Prelude.{
  ℕ, String, ◌≡◌, refl, ap, ◌∙◌, subst, Bool, true, not, ◌&&◌, ◌||◌, Option, none, some, List, [],
  ◌∷◌, ◌++◌, arith, Bool-cases, Option-cases, inl, inr, ◌==◌, eq_iff, any, all, any-append, select,
  select-append, length, if◌then◌else◌, ltb, eqb, Json, Items,
}
use genie_promote_cicd.Review.Findings.{
  Finding, is_severity, decide_gate, owns, with_backstop, finalize_findings, is_given,
  required_fields, finding_of, listed, coerce_finding, coerce_all, parse_findings, get, eval_rule,
}

select_empty :
    (p : Finding → Bool) (xs : List Finding) → eqb (length (select p xs)) 0 ≡ not (any p xs)
select_empty p [] = refl
select_empty p (x ∷ xs) = ground (arith, select_empty p xs)

-- A blocker has one of the three severities.
blocker-valid :
    (xs : List Finding)
    → any (λ f. f.severity == "BLOCKER") (select (λ f. is_severity f.severity) xs)
      ≡ any (λ f. f.severity == "BLOCKER") xs
blocker-valid [] = refl
blocker-valid (x ∷ xs) = ground (arith, blocker-valid xs, eq_iff x.severity "BLOCKER")

blocker-is_severity :
    (xs : List Finding)
    → any (λ f. f.severity == "BLOCKER") xs ≡ true
    → any (λ f. is_severity f.severity) xs ≡ true
blocker-is_severity [] h = absurd (cc)
blocker-is_severity (x ∷ xs) h = ground (arith, blocker-is_severity xs, eq_iff x.severity "BLOCKER")

-- The conclusion of the gate depends on three questions in this order: a finding "OPERATIONAL" makes
-- it "operational_failure", else a "BLOCKER" makes it "failure", else a finding of one of the three
-- severities makes it "neutral", and without any it is "success".
pub decide_gate-conclusion :
    (findings : List Finding)
    → (decide_gate findings).conclusion ≡ (
        if any (λ f. f.severity == "OPERATIONAL") findings
        then "operational_failure"
        else if any (λ f. f.severity == "BLOCKER") findings
        then "failure"
        else if any (λ f. is_severity f.severity) findings
        then "neutral"
        else "success")
unfolding decide_gate
decide_gate-conclusion findings = ground (
  arith,
  select_empty (λ f. is_severity f.severity) findings,
  select_empty (λ f. f.severity == "BLOCKER") (select (λ f. is_severity f.severity) findings),
  blocker-valid findings,
  blocker-is_severity findings,
)

with_backstop-blocker :
    (det : List Finding) (n_benchmark min_benchmark : ℕ) (severity : String)
    → (any (λ f. f.severity == "BLOCKER") det
        || (ltb n_benchmark min_benchmark && not (owns det "EVAL-01") && severity == "BLOCKER"))
      ≡ true
    → any (λ f. f.severity == "BLOCKER") (with_backstop det n_benchmark min_benchmark severity)
      ≡ true
unfolding with_backstop
with_backstop-blocker det n_benchmark min_benchmark severity h = ground (
  arith,
  any-append (λ f. f.severity == "BLOCKER") det (eval_rule n_benchmark min_benchmark severity ∷ []),
)

finalize_findings-blocker :
    (llm det : List Finding) (n_benchmark min_benchmark : ℕ) (severity : String)
    → any (λ f. f.severity == "BLOCKER") (with_backstop det n_benchmark min_benchmark severity)
      ≡ true
    → any
        (λ f. f.severity == "BLOCKER")
        (finalize_findings llm det n_benchmark min_benchmark severity)
      ≡ true
unfolding finalize_findings
finalize_findings-blocker llm det n_benchmark min_benchmark severity h =
    let d = with_backstop det n_benchmark min_benchmark severity in
    ground (
      arith,
      any-append (λ f. f.severity == "BLOCKER") d (select (λ f. not (owns d f.rule_id)) llm),
    )

-- Whatever the model answers, it cannot soften a deterministic finding: a deterministic "BLOCKER", or
-- too few benchmark questions with no deterministic finding of rule EVAL-01 where that rule's
-- configured severity is "BLOCKER", makes the gate fail, unless an "OPERATIONAL" finding makes it an
-- operational failure.
pub finalize_findings-blocks :
    (llm det : List Finding) (n_benchmark min_benchmark : ℕ) (severity : String)
    → (any (λ f. f.severity == "BLOCKER") det
        || (ltb n_benchmark min_benchmark && not (owns det "EVAL-01") && severity == "BLOCKER"))
      ≡ true
    → (decide_gate (finalize_findings llm det n_benchmark min_benchmark severity)).conclusion ≡ (
        if any
          (λ f. f.severity == "OPERATIONAL")
          (finalize_findings llm det n_benchmark min_benchmark severity)
        then "operational_failure"
        else "failure")
finalize_findings-blocks llm det n_benchmark min_benchmark severity h = ground (
  arith,
  decide_gate-conclusion (finalize_findings llm det n_benchmark min_benchmark severity),
  finalize_findings-blocker llm det n_benchmark min_benchmark severity
      (with_backstop-blocker det n_benchmark min_benchmark severity h),
)

-- What one rule's findings are after the merge.
other_rules :
    (det llm : List Finding) (rule : String)
    → owns det rule ≡ true
    → select (λ f. f.rule_id == rule) (select (λ f. not (owns det f.rule_id)) llm) ≡ []
other_rules det [] rule h = refl
other_rules det (f ∷ llm) rule h = elim (Bool-cases (f.rule_id == rule)) [
  | inl same ↦
      let owned : owns det f.rule_id ≡ true = ap (owns det) ((eq_iff f.rule_id rule).0 same) ∙ h in
      ground (arith, owned, other_rules det llm rule h)
  | inr other ↦ ground (arith, other_rules det llm rule h)
]

-- A rule that a deterministic finding decides, EVAL-01 included where its finding is due, is decided by
-- the deterministic findings alone: the merged findings of that rule are the deterministic ones, and
-- no answer of the model adds one or takes one away.
pub finalize_findings-owned :
    (llm det : List Finding) (n_benchmark min_benchmark : ℕ) (severity rule : String)
    → owns (with_backstop det n_benchmark min_benchmark severity) rule ≡ true
    → select (λ f. f.rule_id == rule) (finalize_findings llm det n_benchmark min_benchmark severity)
      ≡ select (λ f. f.rule_id == rule) (with_backstop det n_benchmark min_benchmark severity)
unfolding finalize_findings
finalize_findings-owned llm det n_benchmark min_benchmark severity rule h =
    let d = with_backstop det n_benchmark min_benchmark severity in
    select-append (λ f. f.rule_id == rule) d (select (λ f. not (owns d f.rule_id)) llm)
    ∙ ap (λ l. select (λ f. f.rule_id == rule) d ++ l) (other_rules d llm rule h)
    ∙ append-nil (select (λ f. f.rule_id == rule) d)

kept :
    (a b : Bool) (x f : Finding)
    → (if not a then none else if b then some x else none) ≡ some f
    → (b ≡ true) × (x ≡ f)
kept a b x f h = ground arith

module _ (show : Json → String) where
  coerce_finding-severity :
      (value : Json) (f : Finding)
      → coerce_finding show value ≡ some f
      → is_severity f.severity ≡ true
  unfolding coerce_finding
  coerce_finding-severity (Json.obj o) f h =
      let (valid, same) =
        kept (all (λ k. is_given (get k o)) required_fields)
          (is_severity (finding_of show o).severity) (finding_of show o) f h in
      subst (λ g. is_severity g.severity ≡ true) same valid
  coerce_finding-severity Json.null f h = absurd (cc)
  coerce_finding-severity (Json.bool b) f h = absurd (cc)
  coerce_finding-severity (Json.num n) f h = absurd (cc)
  coerce_finding-severity (Json.str s) f h = absurd (cc)
  coerce_finding-severity (Json.arr items) f h = absurd (cc)

  coerce_all-severities :
      (items : Items) → all (λ f. is_severity f.severity) (coerce_all show items) ≡ true
  unfolding coerce_all
  coerce_all-severities Items.nil = refl
  coerce_all-severities (Items.cons item more) = elim (Option-cases (coerce_finding show item)) [
    | inl none_there ↦ rw none_there (coerce_all-severities more)
    | inr (f, there) ↦ rw there (
        both (is_severity f.severity) _ (coerce_finding-severity item f there)
          (coerce_all-severities more))
  ]
    where
      both : (a b : Bool) → a ≡ true → b ≡ true → (a && b) ≡ true
      both a b h k = ground arith

  listed-severities : (value : Json) → all (λ f. is_severity f.severity) (listed show value) ≡ true
  listed-severities (Json.arr items) = coerce_all-severities items
  listed-severities (Json.obj o) = refl
  listed-severities Json.null = refl
  listed-severities (Json.bool b) = refl
  listed-severities (Json.num n) = refl
  listed-severities (Json.str s) = refl

  -- Whatever JSON the model answers with, each finding that is read from it has one of the three
  -- severities: the answer cannot claim an operational failure.
  pub parse_findings-severities :
      (answer : Option Json) → all (λ f. is_severity f.severity) (parse_findings show answer) ≡ true
  unfolding parse_findings
  parse_findings-severities none = refl
  parse_findings-severities (some (Json.arr items)) = coerce_all-severities items
  parse_findings-severities (some (Json.obj o)) = listed-severities (get "findings" o)
  parse_findings-severities (some Json.null) = refl
  parse_findings-severities (some (Json.bool b)) = refl
  parse_findings-severities (some (Json.num n)) = refl
  parse_findings-severities (some (Json.str s)) = refl
