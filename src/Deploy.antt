-- ===== src/Deploy.antt =====
-- scripts/deploy_attempt.py: the production deployment's fixed sequence of stages and its evidence.
-- Evidence and Text have the data, Run the state machine, Artifacts, Live and Certify operations of its
-- stages; Stages, Emission and Unique have lemmas on them.
pub mod Text
pub mod Evidence
pub mod Run
pub mod Stages
pub mod Emission
pub mod Artifacts
pub mod Live
pub mod Certify
pub mod Unique
