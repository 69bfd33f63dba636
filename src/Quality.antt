-- ===== src/Quality.antt =====
-- What is checked of an artifact before its promotion: genie_reviewer/eval_gate.py and
-- genie_reviewer/audience_check.py.
pub mod EvalGate
pub mod EvalRun
pub mod EvalLaws
pub mod AudienceCheck
pub mod AudienceLaws
