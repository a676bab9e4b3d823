-- ===== src/Tests.antt =====
-- The theorems at concrete inputs, with instances of the interfaces.
mod Instances
mod Protocol
mod Client
mod Producer
mod Amqp
mod SuperStream
