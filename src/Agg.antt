-- ===== src/Agg.antt =====
-- internal/agg: the store of snapshots, what it renders, and the refreshers that fill it.
pub mod Render
pub mod Store
pub mod Refresh
