-- ===== src/Quality/EvalGate.antt =====
-- genie_reviewer/eval_gate.py: the decision on the outcomes of an evaluation's questions. The test
-- `rate < threshold` on two counts, a quotient and a comparison of floats, is the parameter `below`.
-- A verdict's text and the threshold that it repeats are left out.
use genie_promote_cicd.Prelude.{
  ℕ, String, Bool, true, false, not, Option, none, some, List, [], ◌∷◌, map, select, any, length,
  ◌==◌, eqb, leb, if◌then◌else◌, strip, upper, sort_by, Json, Fields,
}
use genie_promote_cicd.Review.Findings.{get}

abbrev pub pass_tokens : List String
pass_tokens = "PASS" ∷ "PASSED" ∷ "SUCCESS" ∷ "CORRECT" ∷ "TRUE" ∷ "OK" ∷ []

-- The first of the fields that is a Boolean.
abbrev flag_of : List String → Fields → Option Bool
flag_of [] item = none
flag_of (k ∷ keys) item = elim (get k item) [ Json.bool b ↦ some b | _ ↦ flag_of keys item ]

abbrev is_pass_token : Json → Bool
is_pass_token (Json.str s) = any (λ t. t == upper (strip s)) pass_tokens
is_pass_token _ = false

abbrev flags : List String
flags = "passed" ∷ "is_correct" ∷ "correct" ∷ "success" ∷ []

abbrev tokens : List String
tokens = "status" ∷ "result" ∷ "outcome" ∷ "grade" ∷ []

abbrev passed_by : Option Bool → Fields → Bool
passed_by (some b) item = b
passed_by none item = any (λ k. is_pass_token (get k item)) tokens

unfoldable pub passed : Json → Bool
passed (Json.obj item) = passed_by (flag_of flags item) item
passed _ = false

abbrev pub is_dict : Json → Bool
is_dict (Json.obj item) = true
is_dict _ = false

pub record Question : Type 0 where
  pub question : Option String
  pub status : String

pub record Verdict : Type 0 where
  pub status : String
  pub pass_rate : Option (ℕ × ℕ)
  pub n : ℕ
  pub n_correct : Option ℕ
  pub n_needs_review : Option ℕ
  pub questions : Option (List Question)
  pub run_id : Option String

-- The verdict that does not block.
abbrev pub advisory : ℕ → Verdict
advisory n = record {
  status = "advisory";
  pass_rate = none;
  n = n;
  n_correct = none;
  n_needs_review = none;
  questions = none;
  run_id = none;
}

abbrev pub judged : Bool → ℕ → ℕ → Verdict
judged low n_pass n = record {
  status = if low then "block" else "pass";
  pass_rate = some (n_pass, n);
  n = n;
  n_correct = some n_pass;
  n_needs_review = some 0;
  questions = none;
  run_id = none;
}

abbrev order_of : String → ℕ
order_of status =
    if status == "incorrect"
    then 0
    else if status == "needs_review"
    then 1
    else if status == "correct"
    then 2
    else 3

abbrev pub question_le : Question → Question → Bool
question_le p q = leb (order_of p.status) (order_of q.status)

-- `{"passed": flag}`
abbrev pub outcome : Bool → Json
outcome flag = Json.obj (Fields.field "passed" (Json.bool flag) Fields.end)

module _ (below : ℕ → ℕ → Bool) where
  unfoldable pub decide_eval : List Json → Bool → Verdict
  decide_eval results available =
      let items = select is_dict results in
      let n = length items in
      let n_pass = length (select passed items) in
      if not available
      then advisory 0
      else if eqb n 0
      then advisory 0
      else judged (below n_pass n) n_pass n

  abbrev pub detailed : List Question → Verdict → Verdict
  detailed questions payload = record payload {
    n_needs_review = some (length (select (λ q. q.status == "needs_review") questions));
    questions = some (sort_by question_le questions);
  }

  unfoldable pub decide_eval_with_questions : List Question → Verdict
  decide_eval_with_questions [] = decide_eval [] true
  decide_eval_with_questions (q ∷ questions) =
      detailed (q ∷ questions)
        (decide_eval (map (λ p. outcome (p.status == "correct")) (q ∷ questions)) true)
