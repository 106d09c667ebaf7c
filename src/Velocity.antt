-- ===== src/Velocity.antt =====
-- The velocity profiles along which the camera moves: megatree_web/js/velocityprofile_*.js.
pub mod Trap
pub mod Slowdown
pub mod Mapped
pub mod Cubic
pub mod Laws
