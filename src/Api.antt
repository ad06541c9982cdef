-- ===== src/Api.antt =====
-- What the repository uses of code that is not its own: the inventory's API and its errors, the
-- Kubernetes client with Tinkerbell's resources, and the authorization service.
pub mod Enums
pub mod Resources
pub mod Tink
pub mod Calls
pub mod Errors
pub mod Env
