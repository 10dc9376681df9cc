-- ===== src/Routine.antt =====
-- shared/routine: a server's background routines. `Backoff` is backoff.go, `Group` is the group of
-- routine.go as a state machine, `Options` is options.go,
-- `Runs` is how one routine is run, restarted and counted (routine.go, report.go).
pub mod Backoff
pub mod Group
pub mod Options
pub mod Runs
