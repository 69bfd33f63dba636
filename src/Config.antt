-- ===== src/Config.antt =====
-- The administrators' configuration: app/roles_store.py, app/rules_store.py and
-- genie_reviewer/rules_config.py, with app/prompt_template_store.py.
pub mod Roles
pub mod RolesLaws
pub mod Rules
pub mod Effective
pub mod RulesTrail
pub mod RulesMerge
pub mod Prompt
pub mod PromptTrail
