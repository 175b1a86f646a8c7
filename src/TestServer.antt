-- ===== src/TestServer.antt =====
-- The test server of testservice.go and testservice_*.go: nodes, files, devices, networks, tags, zones,
-- node groups, subnets, spaces and static routes.
pub mod Store
pub mod Nodes
pub mod Addresses
pub mod Subnets
pub mod Numbered
pub mod Registry
pub mod Devices
pub mod Networks
pub mod Tags
pub mod Nodegroups
pub mod Files
