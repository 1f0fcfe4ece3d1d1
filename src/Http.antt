-- ===== src/Http.antt =====
-- src/http: the server's requests, responses, routes and worker threads.
pub mod Types
pub mod Lines
pub mod Framing
pub mod Exact
pub mod Writer
pub mod Server
pub mod Lifecycle
pub mod Digits
pub mod What
pub mod Task
pub mod Client
pub mod Connection
pub mod Router
pub mod Response
pub mod ResponseText
pub mod Interface
pub mod RequestText
pub mod Headers
pub mod Delivery
pub mod Refusals
mod Tests
pub mod Request
