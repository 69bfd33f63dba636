-- ===== src/Quality/EvalRun.antt =====
-- genie_reviewer/eval_gate.py: the run of an evaluation, `run_eval_gate_rest`. The workspace client and
-- the clock are parameters, on a state that is not in the file. Times are numbers. The loop that polls
-- the run is on fuel, and has none left where the result is none.
use genie_promote_cicd.Prelude.{
  ℕ, zero, suc, ◌+◌, ◌-◌, String, Bool, true, false, not, ◌||◌, Option, none, some, List, [], ◌∷◌,
  ◌++◌, any, ◌==◌, eqb, ltb, if◌then◌else◌, truthy, or_else, Exec, Result, ok, raise, pure, ◌>>=◌,
  Json,
}
use genie_promote_cicd.Quality.EvalGate.{
  Question, Verdict, advisory, outcome, decide_eval, decide_eval_with_questions,
}

pub record EvalRun : Type 0 where
  pub eval_run_id : String
  pub eval_run_status : Option String
  pub num_questions : Option ℕ
  pub num_done : Option ℕ
  pub num_correct : Option ℕ

pub record EvalResult : Type 0 where
  pub result_id : String
  pub question : Option String

pub record Page : Type 0 where
  pub eval_results : List EvalResult
  pub next_page_token : Option String

-- `genie_get_eval_result_details` returns the assessment.
pub record EvalClient (S : Type 0) : Type 0 where
  pub create_eval_run : String → Exec S EvalRun
  pub get_eval_run : (space_id run_id : String) → Exec S EvalRun
  pub list_eval_results : (space_id run_id : String) → Option String → Exec S Page
  pub get_assessment : (space_id run_id result_id : String) → Exec S (Option String)
  pub monotonic : S → ℕ
  pub sleep : ℕ → S → S

abbrev pub terminal_statuses : List String
terminal_statuses =
    "DONE" ∷ "EVALUATION_CANCELLED" ∷ "EVALUATION_FAILED" ∷ "EVALUATION_TIMEOUT" ∷ []

-- `_status_name`
abbrev pub status_name : Option String → String
status_name status = or_else status ""

abbrev pub is_terminal : String → Bool
is_terminal status = any (λ t. t == status) terminal_statuses

abbrev assessment_status : String → Option String
assessment_status a =
    if a == "GOOD"
    then some "correct"
    else if a == "BAD"
    then some "incorrect"
    else if a == "NEEDS_REVIEW"
    then some "needs_review"
    else none

abbrev classified : Result (Option String) → Option String
classified (ok a) = assessment_status (status_name a)
classified (raise e) = none

abbrev max_result_pages : ℕ
max_result_pages = 20

-- `[{"passed": flag}] * n`
abbrev pub repeat : ℕ → Bool → List Json
repeat zero flag = []
repeat (suc n) flag = outcome flag ∷ repeat n flag

-- What the loop that polls comes to.
pub data Polled : Type 0 where
  finished : EvalRun → Polled
  poll_failed : Polled

module _ (below : ℕ → ℕ → Bool) {S : Type 0} (client : EvalClient S) (space_id : String) where
  abbrev add_question : Option String → EvalResult → List Question → List Question
  add_question none r out = out
  add_question (some status) r out = out ++ record { question = r.question; status = status } ∷ []

  -- The results of one page.
  unfoldable pub fetch_page : String → List EvalResult → List Question → Exec S (List Question)
  fetch_page run_id [] out s = pure out s
  fetch_page run_id (r ∷ results) out s =
      let (details, t) = client.get_assessment space_id run_id r.result_id s in
      fetch_page run_id results (add_question (classified details) r out) t

  -- The loop over the pages, with the pages that are left.
  unfoldable pub fetch_pages : ℕ → String → Option String → List Question → Exec S (List Question)
  fetch_pages zero run_id token out = pure out
  fetch_pages (suc n) run_id token out = client.list_eval_results space_id run_id token >>= λ resp.
      fetch_page run_id resp.eval_results out >>= λ more.
      let rest = fetch_pages n run_id resp.next_page_token more in
      if truthy resp.next_page_token then rest else pure more

  abbrev pub fetch_eval_questions : String → Exec S (List Question)
  fetch_eval_questions run_id = fetch_pages max_result_pages run_id none []

  abbrev pub continue : (EvalRun → S → Option Polled × S) → Result EvalRun → S → Option Polled × S
  continue loop (ok run) s = loop run s
  continue loop (raise e) s = (some poll_failed, s)

  -- Whether the loop that polls ends here.
  abbrev pub settled : ℕ → EvalRun → S → Bool
  settled deadline run s =
      is_terminal (status_name run.eval_run_status) || not (ltb (client.monotonic s) deadline)

  unfoldable pub poll : ℕ → (deadline interval : ℕ) → EvalRun → S → Option Polled × S
  poll zero deadline interval run s =
      if settled deadline run s then (some (finished run), s) else (none, s)
  poll (suc fuel) deadline interval run s =
      let (next, t) = client.get_eval_run space_id run.eval_run_id (client.sleep interval s) in
      let rest = continue (poll fuel deadline interval) next t in
      if settled deadline run s then (some (finished run), s) else rest

  abbrev counted : EvalRun → Verdict
  counted run =
      let n_correct = or_else run.num_correct 0 in
      decide_eval below (repeat n_correct true ++ repeat (or_else run.num_done 0 - n_correct) false)
        true

  -- The questions where there are any, else the counters.
  abbrev pub by_questions : EvalRun → Result (List Question) → Verdict
  by_questions run (raise e) = counted run
  by_questions run (ok []) = counted run
  by_questions run (ok (q ∷ questions)) =
      record (decide_eval_with_questions below (q ∷ questions)) { run_id = some run.eval_run_id }

  abbrev pub verdict_done : EvalRun → S → Verdict × S
  verdict_done run s =
      let (questions, t) = fetch_eval_questions run.eval_run_id s in
      if eqb (or_else run.num_done 0) 0
      then (decide_eval below [] true, s)
      else (by_questions run questions, t)

  -- The verdict on what the loop came to.
  abbrev pub verdict_of : Polled → S → Verdict × S
  verdict_of poll_failed s = (decide_eval below [] false, s)
  verdict_of (finished run) s =
      let status = status_name run.eval_run_status in
      if not (is_terminal status)
      then (advisory (or_else run.num_questions 0), s)
      else if not (status == "DONE")
      then (decide_eval below [] false, s)
      else verdict_done run s

  abbrev pub after_poll : Option Polled × S → Option Verdict × S
  after_poll (none, s) = (none, s)
  after_poll (some p, s) = let (v, t) = verdict_of p s in (some v, t)

  abbrev pub after_create : ℕ → ℕ → ℕ → Result EvalRun × S → Option Verdict × S
  after_create fuel wait_seconds interval (raise e, s) = (some (decide_eval below [] false), s)
  after_create fuel wait_seconds interval (ok run, s) =
      after_poll (poll fuel (client.monotonic s + wait_seconds) interval run s)

  unfoldable pub run_eval_gate_rest : ℕ → (wait_seconds interval : ℕ) → S → Option Verdict × S
  run_eval_gate_rest fuel wait_seconds interval s =
      after_create fuel wait_seconds interval (client.create_eval_run space_id s)
