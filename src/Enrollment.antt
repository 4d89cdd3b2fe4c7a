-- ===== src/Enrollment.antt =====
-- internal/enrollment: identities of collectors and the tokens with which they enrol.
pub mod Ids
pub mod Tokens
