-- ===== src/RetrievalLimits.antt =====
-- .harness/retrieval_limits.py: inputs for a reranker are cut to its budget, and a provider that answers
-- "too many requests" is left alone for a while.
pub mod Bisection
pub mod Fitting
pub mod Cooldown
