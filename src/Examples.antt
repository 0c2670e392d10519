-- ===== src/Examples.antt =====
-- The theorems at work: one export, of one tenant, on concrete values.
pub mod Data
mod Operations
mod Lifecycles
mod Repositories
mod Drains
mod Packages
mod Services
pub mod Jobs
mod Compositions
mod CompositionCommits
mod Chains
mod Initializations
