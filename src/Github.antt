-- ===== src/Github.antt =====
-- genie_reviewer/github_app.py: what is read off GitHub's answers about one pull request.
pub mod Status
pub mod Standing
pub mod Phase
pub mod Observe
