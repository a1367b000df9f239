-- ===== src/Authority.antt =====
-- Authority: resource selectors and the intersection of grants (crates/kiteframe-provider/src,
-- resource.rs and authority.rs).
pub mod Selector
pub mod Bounds
pub mod Resources
pub mod Intersect
mod Examples
