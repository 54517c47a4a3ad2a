-- ===== src/Github.antt =====
-- The GitHub provider: src/providers/github.rs.
pub mod Errors
pub mod RepoPath
pub mod Responses
pub mod Calls
pub mod Caches
pub mod Mint
pub mod Tokens
pub mod Cached
pub mod After
pub mod Again
pub mod Minting
pub mod Scope
pub mod Status
pub mod Excerpt
