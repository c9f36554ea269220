-- ===== src/Scheduler.antt =====
-- api/internal/scheduler/scheduler.go: placement of sandboxes and volumes on agents. Quantities are
-- Go's `int` and `int64`, taken as unbounded; times are nanoseconds; floats are the parameter
-- `Floats`, and `sort.Slice` is a parameter too.
pub mod Data
pub mod Reserve
pub mod Choose
pub mod Accounts
pub mod Selection
pub mod Fit
pub mod Leases
pub mod AgentList
pub mod Examples
