-- ===== src/Rosbridge.antt =====
-- The package rosbridge: message types, the wire protocol and the client of a robot.
pub mod Types
pub mod Protocol
pub mod Codec
pub mod Client
