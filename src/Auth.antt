-- ===== src/Auth.antt =====
-- The login of the command-line client, apps/web/app/api/auth.
pub mod DeviceFlow
mod Tests
