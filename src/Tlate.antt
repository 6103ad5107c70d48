-- ===== src/Tlate.antt =====
-- internal/tlate: the translation of the MTProto library's updates and messages to those of the Bot API.
pub mod Telegram
pub mod Context
pub mod Chats
pub mod Entities
pub mod Markup
pub mod Media
pub mod Messages
pub mod Members
pub mod Reactions
pub mod Updates
pub mod Tests
