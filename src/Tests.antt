-- ===== src/Tests.antt =====
-- The properties at concrete inputs, and runs of the model on inputs of the program's own tests.
mod PatchRuns
mod PatchExamples
mod ShellExamples
mod ConfigExamples
mod TransferExamples
mod EnvironmentExamples
mod TarExamples
mod IdentificationExamples
mod BackgroundExamples
mod MarkerExamples
mod RouterOsExamples
