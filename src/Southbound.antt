-- ===== src/Southbound.antt =====
-- onboarding-manager/internal/handlers/southbound/grpcserver/grpc_server.go: the services that edge
-- nodes call to be onboarded.
pub mod Lookup
pub mod ZeroTouch
pub mod Stream
pub mod Nodes
