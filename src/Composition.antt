-- ===== src/Composition.antt =====
-- The composition scheduler (composition/): a job pins its source and advances one head.
pub mod Core
pub mod SourcePin
pub mod JobHead
pub mod Transition
pub mod Repository
pub mod Lifecycle
pub mod ChainReader
pub mod Context
pub mod Staging
pub mod Initialization
pub mod Progress
