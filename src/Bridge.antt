-- ===== src/Bridge.antt =====
-- The runtime bridge: runtime_bridge/c-modules/pxprpc_rtbridge_base/init.hpp and
-- runtime_bridge/src/pxprpc_rtbridge.c.
pub mod Accept
pub mod Async
pub mod Blocking
pub mod Memory
pub mod Variables
mod Examples
