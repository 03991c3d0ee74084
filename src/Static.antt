-- ===== src/Static.antt =====
-- static: the tables of coordinates.
pub mod Countries
pub mod Regions
