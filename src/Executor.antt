-- ===== src/Executor.antt =====
-- internal/service/protocol_executor.go: the interpreter of protocol templates. A template is a map of
-- steps; the steps of a run share a context map, and each stores its result under its id.
pub mod Context
pub mod Convert
pub mod Struct
pub mod Step
pub mod Poll
pub mod Manual
mod Tests
