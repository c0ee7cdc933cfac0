-- ===== src/Tokens.antt =====
-- modules/auth/services/token_service.py, modules/auth/validators.py, modules/auth/policies.py,
-- app/dependencies.py and the login of app/routes/auth.py.
pub mod Service
pub mod Access
pub mod Passwords
pub mod Accounts
pub mod Login
pub mod RoundTrip
pub mod Accepted
pub mod Identity
pub mod Emails
pub mod Suffixes
mod Examples
