-- ===== src/Appserve.antt =====
-- internal/appserve/log.go: the log of Data Apps' reports. `Limiter` is the limit on each app's
-- reports in a minute.
pub mod Limiter
