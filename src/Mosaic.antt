-- ===== src/Mosaic.antt =====
-- app/services/mosaic_plan.py: the planner of mosaics.
pub mod Dates
pub mod Slices
pub mod Seasons
pub mod Greedy
