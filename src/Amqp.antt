-- ===== src/Amqp.antt =====
-- protocol/src/message/amqp: the AMQP 1.0 codec of message bodies.
pub mod TypeCode
pub mod Errors
pub mod Numbers
pub mod Texts
pub mod Simple
pub mod Keys
pub mod Collections
pub mod Value
pub mod Header
pub mod Properties
pub mod Section
pub mod Message
pub mod Builder
