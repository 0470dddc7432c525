-- ===== src/Tests.antt =====
-- Concrete runs of the model.
mod Broker
mod Rules
mod Connections
mod Layers
mod Primitives
mod Clients
mod World
mod Delivery
mod Tls
mod Makers
