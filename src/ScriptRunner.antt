-- ===== src/ScriptRunner.antt =====
-- internal/scriptrunner: cron schedules, argument splitting and the runner.
pub mod Cron
pub mod SplitArgs
pub mod Runner
