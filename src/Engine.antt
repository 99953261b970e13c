-- ===== src/Engine.antt =====
-- The engine, the actor behind the client: identifiers, the retirement of a connection, reconnection
-- delays, orders through losses of the connection.
pub mod Ids
pub mod Retire
pub mod Backoff
pub mod OrderRoutes
pub mod Brackets
pub mod Executions
