-- ===== src/Lb.antt =====
-- lb/: the load balancer's handlers.
pub mod Front
pub mod Handler
pub mod Admin
pub mod Starting
