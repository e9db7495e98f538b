-- ===== src/Harness/Resume.antt =====
-- crates/localpilot-harness/src/resume.rs: the run of the next step of a plan.
pub mod Status
pub mod Driver
pub mod Replan
pub mod Run
pub mod Start
pub mod Ends
pub mod Outcome
pub mod Whole
