-- ===== src/ChangeRequest.antt =====
-- genie_reviewer/change_request.py: the observations of a Change Request and the immutable revision
-- pairs. A JSON mapping of texts is an association list, and an empty one is false in a test. The
-- digests of `compute_content_revision` are hashlib's and are left out.
mod Types
mod Revisions
pub mod Rejection
unfoldable pub use Types.*
unfoldable pub use Revisions.*
