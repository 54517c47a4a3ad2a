-- ===== src/Tests.antt =====
-- Runs of the theorems at concrete inputs.
mod Values
mod Protocol
mod Credential
mod Minting
mod State
mod Caches
mod Github
mod Agent
mod Signing
mod Admin
mod Talk
