-- ===== src/ClientLogin.antt =====
-- gdata/gdata-client-login-authorizer.c: logging in with a user name and a password, once for each of
-- the authorizer's domains. Below are the reading of a body's lines, what a login makes of the
-- server's answers, and the authorizer.
pub mod Fields
pub mod Answers
pub mod Authorizer
pub mod Reading
pub mod Granted
