-- ===== src/Wisp.antt =====
-- wisp/server: the session table, the queue for the real-time slot, the control plane, and the
-- framing of wisp/protocol.
pub mod Types
pub mod Dmabuf
pub mod Table
pub mod Queue
pub mod Ring
pub mod Channel
pub mod Client
pub mod DataPlane
pub mod FileSink
pub mod Control
pub mod Handlers
pub mod Loop
pub mod Listing
pub mod Arbiter
pub mod AdminPlane
pub mod Session
pub mod Wire
