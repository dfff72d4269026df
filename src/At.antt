-- ===== src/At.antt =====
-- components/at_engine: the token parser, the protocol's lines, and the router of lines.
pub mod Parser
pub mod Protocol
pub mod Router
