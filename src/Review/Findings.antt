-- ===== src/Review/Findings.antt =====
-- Cores 3, 4 and 5 of genie_reviewer/review_core.py. A finding is the mapping that `_coerce_finding`
-- and the deterministic checks make; `json.loads`, and `str` of a value that is no text, are parameters.
-- The gate's summary, a text for the reader, is left out.
use Prim.Native.Nat.{◌/◌, ◌%◌}
use Prim.Native.Char.{code}
use mathlib.Core.Option
use genie_promote_cicd.Prelude.{
  ℕ, zero, suc, ◌-◌, String, Bool, true, false, not, ◌&&◌, Option, none, some, List, [], ◌∷◌, ◌++◌,
  ◌==◌, if◌then◌else◌, length, any, all, select, Json, Items, Fields, ltb, eqb, upper, concat,
}

pub record Finding : Type 0 where
  pub severity : String
  pub rule_id : String
  pub citation : String
  pub message : String
  pub suggestion : Option String

abbrev pub severities : List String
severities = "BLOCKER" ∷ "SUGGESTION" ∷ "STYLE" ∷ []

abbrev pub required_fields : List String
required_fields = "severity" ∷ "rule_id" ∷ "citation" ∷ "message" ∷ []

abbrev pub is_severity : String → Bool
is_severity s = any (λ t. t == s) severities

-- `obj.get(key)`
abbrev pub get : String → Fields → Json
get key Fields.end = Json.null
get key (Fields.field name value more) =
    let rest = get key more in if name == key then value else rest

-- `value not in (None, "")`
abbrev pub is_given : Json → Bool
is_given Json.null = false
is_given (Json.str s) = not (s == "")
is_given (Json.bool b) = true
is_given (Json.num n) = true
is_given (Json.arr items) = true
is_given (Json.obj fields) = true

abbrev pub is_true : Json → Bool
is_true Json.null = false
is_true (Json.bool b) = b
is_true (Json.num n) = not (eqb n 0)
is_true (Json.str s) = not (s == "")
is_true (Json.arr Items.nil) = false
is_true (Json.arr (Items.cons x xs)) = true
is_true (Json.obj Fields.end) = false
is_true (Json.obj (Fields.field k v more)) = true

module _ (show : Json → String) where
  -- `str(value)`
  abbrev text : Json → String
  text (Json.str s) = s
  text Json.null = show Json.null
  text (Json.bool b) = show (Json.bool b)
  text (Json.num n) = show (Json.num n)
  text (Json.arr items) = show (Json.arr items)
  text (Json.obj fields) = show (Json.obj fields)

  abbrev pub finding_of : Fields → Finding
  finding_of o = record {
    severity = upper (text (get "severity" o));
    rule_id = text (get "rule_id" o);
    citation = text (get "citation" o);
    message = text (get "message" o);
    suggestion = if is_true (get "suggestion" o) then some (text (get "suggestion" o)) else none;
  }

  -- `_coerce_finding`
  unfoldable pub coerce_finding : Json → Option Finding
  coerce_finding (Json.obj o) =
      if not (all (λ k. is_given (get k o)) required_fields)
      then none
      else if is_severity (finding_of o).severity
      then some (finding_of o)
      else none
  coerce_finding Json.null = none
  coerce_finding (Json.bool b) = none
  coerce_finding (Json.num n) = none
  coerce_finding (Json.str s) = none
  coerce_finding (Json.arr items) = none

  abbrev pub with_finding : Option Finding → List Finding → List Finding
  with_finding none rest = rest
  with_finding (some f) rest = f ∷ rest

  unfoldable pub coerce_all : Items → List Finding
  coerce_all Items.nil = []
  coerce_all (Items.cons item more) = with_finding (coerce_finding item) (coerce_all more)

  abbrev pub listed : Json → List Finding
  listed (Json.arr items) = coerce_all items
  listed Json.null = []
  listed (Json.bool b) = []
  listed (Json.num n) = []
  listed (Json.str s) = []
  listed (Json.obj o) = []

  -- `parse_findings`, on what `_loads_tolerant` gave.
  unfoldable pub parse_findings : Option Json → List Finding
  unfolding coerce_all
  parse_findings none = []
  parse_findings (some (Json.obj o)) = listed (get "findings" o)
  parse_findings (some (Json.arr items)) = coerce_all items
  parse_findings (some Json.null) = []
  parse_findings (some (Json.bool b)) = []
  parse_findings (some (Json.num n)) = []
  parse_findings (some (Json.str s)) = []

-- `_first_balanced_object`: the text from the first brace on, up to the brace that closes it.
abbrev scan : ℕ → Bool → Bool → String → Option String
scan depth in_str esc String.[] = none
scan depth in_str esc (String.◌∷◌ c s) =
    let escaped = if in_str then eqb (code c) 92 && not esc else esc in
    let inside = if in_str then not (eqb (code c) 34 && not escaped) else eqb (code c) 34 in
    let deep =
      if in_str
      then depth
      else if eqb (code c) b'{'
      then suc depth
      else if eqb (code c) b'}'
      then depth - 1
      else depth in
    let rest = scan deep inside escaped s in
    if not in_str && eqb (code c) b'}' && eqb deep 0
    then some (String.◌∷◌ c String.[])
    else Option.map (String.◌∷◌ c) rest

unfoldable pub first_balanced_object : String → Option String
first_balanced_object String.[] = none
first_balanced_object (String.◌∷◌ c s) =
    let later = first_balanced_object s in
    if eqb (code c) b'{' then scan 0 false false (String.◌∷◌ c s) else later

-- `_loads_tolerant` of a text.
unfoldable pub loads_tolerant : (String → Option Json) → String → Option Json
unfolding first_balanced_object
loads_tolerant loads raw = elim (loads raw) [
  | some value ↦ some value
  | none ↦ elim (first_balanced_object raw) [ none ↦ none | some object ↦ loads object ]
]

pub record GateResult : Type 0 where
  pub conclusion : String
  pub blocker_count : ℕ

unfoldable pub decide_gate : List Finding → GateResult
decide_gate findings =
    let valid = select (λ f. is_severity f.severity) findings in
    let n_block = length (select (λ f. f.severity == "BLOCKER") valid) in
    if any (λ f. f.severity == "OPERATIONAL") findings
    then record { conclusion = "operational_failure"; blocker_count = 0 }
    else if eqb (length valid) 0
    then record { conclusion = "success"; blocker_count = 0 }
    else if not (eqb n_block 0)
    then record { conclusion = "failure"; blocker_count = n_block }
    else record { conclusion = "neutral"; blocker_count = 0 }

abbrev digit : ℕ → String
digit n =
    if eqb n 0
    then "0"
    else if eqb n 1
    then "1"
    else if eqb n 2
    then "2"
    else if eqb n 3
    then "3"
    else if eqb n 4
    then "4"
    else if eqb n 5
    then "5"
    else if eqb n 6
    then "6"
    else if eqb n 7
    then "7"
    else if eqb n 8
    then "8"
    else "9"

-- `str(n)`: a number has at most as many digits as its successor counts.
abbrev decimal : ℕ → ℕ → String
decimal zero n = ""
decimal (suc fuel) n =
    let high = decimal fuel (n / 10) in if ltb n 10 then digit n else concat high (digit (n % 10))

abbrev pub eval_rule : ℕ → ℕ → String → Finding
eval_rule n_benchmark min_benchmark severity = record {
  severity = severity;
  rule_id = "EVAL-01";
  citation = "Genie Promotion Handbook › Quality › EVAL-01";
  message = concat "Apenas " (
      concat (decimal (suc n_benchmark) n_benchmark) (
        concat " pergunta(s) de benchmark; produção exige >= "
          (concat (decimal (suc min_benchmark) min_benchmark) ".")));
  suggestion =
      some
        "Adicionar perguntas de benchmark na aba \"Benchmarks\" do Genie (pergunta + resposta SQL esperada). Perguntas de exemplo (\"Example queries\") são uma validação à parte e não contam como benchmark.";
}

-- The rules that the deterministic findings decide.
abbrev pub owns : List Finding → String → Bool
owns det rule = any (λ f. f.rule_id == rule) det

unfoldable pub with_backstop : List Finding → ℕ → ℕ → String → List Finding
with_backstop det n_benchmark min_benchmark severity =
    if ltb n_benchmark min_benchmark && not (owns det "EVAL-01")
    then det ++ eval_rule n_benchmark min_benchmark severity ∷ []
    else det

unfoldable pub finalize_findings : List Finding → List Finding → ℕ → ℕ → String → List Finding
finalize_findings llm deterministic n_benchmark min_benchmark severity =
    let det = with_backstop deterministic n_benchmark min_benchmark severity in
    det ++ select (λ f. not (owns det f.rule_id)) llm
