-- ===== src/Shared/Totp.antt =====
-- The codes of the second factor and the text in which its secret is stored:
-- packages/shared/src/totp.ts. The HMAC and the cipher are a library's; a text is the list of its
-- codes, a time a number of milliseconds.
pub mod Steps
pub mod Stored
