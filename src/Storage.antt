-- ===== src/Storage.antt =====
-- The storage of documents (storage/).
pub mod Package
pub mod PackageRepository
