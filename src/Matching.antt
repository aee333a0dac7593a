-- ===== src/Matching.antt =====
-- packages/matching_engine: normalisation of the fields of a record, and the comparison of pairs.
pub mod Numbers
pub mod Normalize
pub mod Names
pub mod Records
pub mod Evaluate
pub mod Safety
pub mod Explanations
pub mod Policy
pub mod Criteria
pub mod Run
pub mod Published
pub mod Samples
mod Tests
