-- ===== src/Review.antt =====
-- genie_reviewer/review_core.py: the findings of a review and the gate that decides on them.
pub mod Findings
pub mod Gate
