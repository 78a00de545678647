-- ===== src/Router.antt =====
-- src/dudamel/router.py: the tool-calling loop, its confirm gate and the taint rule.
pub mod Env
pub mod Gate
pub mod Batch
pub mod Subset
pub mod Replies
pub mod Turn
pub mod Loop
pub mod Confirm
pub mod Resolve
pub mod Taint
pub mod Trace
pub mod Guard
pub mod Answers
pub mod History
pub mod Unchanged
pub mod Sound
pub mod Handled
pub mod Settle
pub mod Grows
pub mod Once
pub mod Consent
pub mod Fresh
pub mod Offered
