-- ===== src/Auth.antt =====
-- internal/auth: the request token of a logged-in user, and the JWT that logs in.
pub mod RequestToken
pub mod Jwt
pub mod Account
pub mod Middleware
mod Examples
pub mod JwtExamples
