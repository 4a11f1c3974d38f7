-- ===== src/Publish.antt =====
-- src/publish: what reaches the host, routes and the hosts file.
pub mod Route
pub mod Hosts
pub mod Writer
