-- ===== src/Delivery.antt =====
-- internal/delivery/grpc: the gRPC server.
pub mod Messages
pub mod Server
