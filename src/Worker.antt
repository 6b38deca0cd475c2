-- ===== src/Worker.antt =====
-- The worker of services/worker/src/worker: the errors of its jobs, the job manager, the loop that
-- starts jobs, the cut of rows, and the job runners that put cached responses together.
pub mod Failures
pub mod Manager
pub mod Loop
pub mod Truncation
pub mod Aggregation
mod Samples
