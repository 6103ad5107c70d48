-- ===== src/Botmgr.antt =====
-- internal/botmgr: the update queue of a bot.
pub mod Translation
pub mod Updates
pub mod RpcError
pub mod Cache
pub mod Webhook
pub mod Deliverers
pub mod Manager
pub mod Dispatch
