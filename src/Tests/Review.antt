-- ===== src/Tests/Review.antt =====
-- A review in which the model answers nothing and a deterministic check blocks.
use genie_promote_cicd.Prelude.{
  ◌≡◌, refl, true, none, [], ◌∷◌, ◌==◌, any, select, if◌then◌else◌, Json, Items, Fields,
}
use genie_promote_cicd.Review.Findings.{
  Finding, decide_gate, owns, with_backstop, finalize_findings,
}
use genie_promote_cicd.Review.Gate.{finalize_findings-blocks, finalize_findings-owned}

abbrev blocker : Finding
blocker = record {
  severity = "BLOCKER";
  rule_id = "ENV-01";
  citation = "ENV";
  message = "dev_ catalog";
  suggestion = none;
}

abbrev soft : Finding
soft = record {
  severity = "STYLE";
  rule_id = "ENV-01";
  citation = "ENV";
  message = "fine";
  suggestion = none;
}

finalize_findings-blocks_example :
    (decide_gate (finalize_findings (soft ∷ []) (blocker ∷ []) 0 2 "BLOCKER")).conclusion ≡ (
      if any
        (λ f. f.severity == "OPERATIONAL")
        (finalize_findings (soft ∷ []) (blocker ∷ []) 0 2 "BLOCKER")
      then "operational_failure"
      else "failure")
finalize_findings-blocks_example =
    finalize_findings-blocks (soft ∷ []) (blocker ∷ []) 0 2 "BLOCKER" refl

owned : owns (with_backstop (blocker ∷ []) 3 2 "BLOCKER") "ENV-01" ≡ true
unfolding with_backstop
owned = refl

finalize_findings-owned_example :
    select (λ f. f.rule_id == "ENV-01") (finalize_findings (soft ∷ []) (blocker ∷ []) 3 2 "BLOCKER")
    ≡ select (λ f. f.rule_id == "ENV-01") (with_backstop (blocker ∷ []) 3 2 "BLOCKER")
finalize_findings-owned_example =
    finalize_findings-owned (soft ∷ []) (blocker ∷ []) 3 2 "BLOCKER" "ENV-01" owned

-- An answer that claims an operational failure.
abbrev answer : Json
answer = Json.arr (
    Items.cons
      (Json.obj (
        Fields.field "severity" (Json.str "OPERATIONAL") (
          Fields.field "rule_id" (Json.str "X") (
            Fields.field "citation" (Json.str "X")
              (Fields.field "message" (Json.str "X") Fields.end)))))
      Items.nil)
