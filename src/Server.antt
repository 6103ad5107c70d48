-- ===== src/Server.antt =====
-- internal/server: the HTTP front of the Bot API.
pub mod InputFile
pub mod Send
pub mod Edit
pub mod Answers
pub mod Extensions
pub mod Chats
pub mod Markup
pub mod Integers
pub mod InlineId
pub mod GetUpdates
pub mod Tests
pub mod FilePath
pub mod Params
pub mod Routing
pub mod WebhookMethods
pub mod BotConfig
pub mod Files
