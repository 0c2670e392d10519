-- ===== src/PdfExport.antt =====
-- The durable PDF export lane of the backend (pdfExport/).
pub mod Issue
pub mod Operation
pub mod Lifecycle
pub mod LifecycleRepository
pub mod OperationRepository
pub mod ShutdownDrain
