-- ===== src/Page.antt =====
-- The logic of the page, megatree_web/js/index.js.
pub mod Requests
pub mod Connection
pub mod Picking
pub mod Jobs
pub mod Query
pub mod RoadJobs
pub mod Trees
pub mod Start
pub mod Views
pub mod Triggers
