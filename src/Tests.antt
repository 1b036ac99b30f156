-- ===== src/Tests.antt =====
-- Runs of the definitions at concrete inputs, and the instances of the main theorems.
mod Summaries
mod Stores
mod Runs
mod Controls
mod Forks
mod Chains
mod Listings
mod Mirrors
mod Subagents
mod Keys
mod Lines
mod Hooks
mod Imports
mod Options
