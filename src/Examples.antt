-- ===== src/Examples.antt =====
-- The theorems at concrete inputs.
mod Caches
mod Data
mod Links
mod Jobs
mod Users
mod Views
mod Queries
mod Pages
mod Frames
mod Buttons
