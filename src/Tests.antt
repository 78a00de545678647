-- ===== src/Tests.antt =====
-- Runs of the definitions on concrete inputs, and the theorems at such inputs.
mod Samples
mod WindowTests
mod ThrottleTests
mod LlmTests
mod RegistryTests
mod CompactionTests
mod RouterTests
mod WebTests
mod SchedulerTests
mod PayloadTests
mod WidgetTests
mod RuntimeTests
mod McpTests
