-- ===== src/Tests.antt =====
-- Concrete configurations, stores and requests, to which the theorems apply.
mod RelayPlan
mod Agg
mod Serving
mod Reload
mod RelayRender
mod RelayCore
mod RelayLoop
mod ClientIp
mod Links
