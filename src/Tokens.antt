-- ===== src/Tokens.antt =====
-- src/token.ts and src/crockford.ts: bearer tokens and invitation codes.
pub mod Alphabet
pub mod Bearer
pub mod RoundTrip
pub mod Invitations
pub mod Codes
pub mod Tests
