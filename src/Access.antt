-- ===== src/Access.antt =====
-- Who may call the service, and how often: rate limits, sessions, revoked tokens, roles.
pub mod RateLimit
pub mod Redis
pub mod Tokens
pub mod Blacklist
pub mod Rbac
pub mod Sessions
pub mod SessionCheck
pub mod CurrentUser
pub mod Users
pub mod Auth
pub mod Totp
