-- ===== src/Tools.antt =====
-- The programs of tools/: the test application, the simulated cron, and the development web server.
pub mod TestApp
pub mod CronSim
pub mod Fileserver
