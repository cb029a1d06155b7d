-- ===== src/Discovery.antt =====
-- internal/discovery: service instances, the Consul registry and the load balancer.
pub mod Instance
pub mod Balancer
pub mod Registry
