-- ===== src/PdfExport/Lifecycle.antt =====
-- The lifecycle state machine of a PDF export (pdfExport/pdfExportLifecycle.ts).
pub mod Head
pub mod Parse
pub mod Transition
pub mod Validity
pub mod Step
pub mod Apply
pub mod Creation
pub mod Binding
pub mod Claims
pub mod Ending
pub mod Progress
pub mod Enabled
pub mod Behaviour
