-- ===== src/Agent.antt =====
-- The agent's bookkeeping of its running jobs (backend/internal/agent): the scan of a job's output
-- (steptrack.go, progress.go, encmetrics.go), the ring of its own log lines (logring.go) and the
-- registry of the jobs (jobs.go). A mutex makes each method one step; a line is its list of bytes.
pub mod Observer
pub mod Ring
pub mod Registry
mod Examples
