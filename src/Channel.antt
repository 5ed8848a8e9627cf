-- ===== src/Channel.antt =====
-- The channels: include/experimental/bits/channel_base.h, channel.h and channel_void.h.
pub mod Types
pub mod Base
pub mod Values
pub mod Invariant
pub mod Calls
pub mod Fifo
pub mod Lifecycle
pub mod Void
