-- ===== src/Frustum.antt =====
-- The frustum querier, megatree_web/js/frustum_querier.js.
pub mod Planes
pub mod Querier
pub mod Process
pub mod Trigger
pub mod Pending
pub mod Keeps
pub mod Steps
pub mod Advances
pub mod Ends
pub mod Cache
