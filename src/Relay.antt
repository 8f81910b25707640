-- ===== src/Relay.antt =====
-- internal/wsrelay: the relay that carries HTTP requests to the providers over web sockets.
pub mod Message
pub mod Session
pub mod Response
pub mod Origin
pub mod Manager
