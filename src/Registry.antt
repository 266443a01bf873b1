-- ===== src/Registry.antt =====
-- service/registry: the instances of services, the weighted choice among them (registry.go), and the
-- manager of the services that are watched and registered (manager.go).
pub mod Balancer
pub mod Manager
