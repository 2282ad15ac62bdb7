-- ===== src/Resilience.antt =====
-- julep/resilience.py: the error taxonomy, the fallback policy and the circuit breaker; and the walk
-- of the fallback chain in julep/execution/llm.py.
pub mod Breaker
pub mod Errors
pub mod Policy
pub mod Caller
