-- ===== src/Validate.antt =====
-- julep/validate.py: the submit-time gate. A flow may deploy when it has no blocking diagnostic.
pub mod Diagnostic
pub mod Fence
pub mod Turns
pub mod Session
pub mod Args
pub mod Structure
pub mod Calls
pub mod Gate
