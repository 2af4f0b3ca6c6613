-- ===== src/Coverage.antt =====
-- The coverage planner (memorist-core/src/memcore/memory_worker/semantic/coverage): spans, the
-- authority of a span, dispositions, provenance, and the plan with its candidate proposals.
pub mod Contracts
pub mod Intervals
pub mod AuthorityIndex
pub mod Policy
pub mod Provenance
pub mod Mapping
pub mod References
pub mod Unit
pub mod Planner
pub mod Tests
