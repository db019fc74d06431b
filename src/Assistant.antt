-- ===== src/Assistant.antt =====
-- The assistant of backend/src/modules/assistant: the tools that a language model may call for a user, and
-- the stream of events that a turn of the chat sends. The model itself is a library's: what it calls, and
-- what its stream brings, is an input.
pub mod Tools
pub mod Execution
pub mod Stream
pub mod Client
pub mod Approval
pub mod Permissions
pub mod Customers
pub mod Turns
pub mod Activity
pub mod Shown
