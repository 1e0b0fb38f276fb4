-- ===== src/Broker.antt =====
-- src/broker: the launcher's decision brokers: the request ledger, and the broker of Linux.
pub mod Ledger
pub mod Frames
pub mod Messages
pub mod Verify
pub mod Connection
pub mod Serve
