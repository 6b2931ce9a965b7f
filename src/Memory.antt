-- ===== src/Memory.antt =====
-- Parts of internal/memory: the walk behind a decision's trace, the checks and defaults of requests,
-- the store and its tables, the review of candidates, promotion and publication,
-- and the recall.
pub mod Trace
pub mod Requests
pub mod Candidates
pub mod Tables
pub mod Store
pub mod Promote
pub mod Publish
pub mod Ranking
pub mod Recall
