-- ===== src/Service.antt =====
-- The services over the repositories (service/).
pub mod Mutation
