-- ===== src/Auth.antt =====
-- Who may call what (auth/).
pub mod RoutePolicy
pub mod Boundary
pub mod Session
