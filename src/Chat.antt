-- ===== src/Chat.antt =====
-- app/features/chat: the guard against tool calls that the model writes as text.
pub mod Dsml
