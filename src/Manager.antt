-- ===== src/Manager.antt =====
-- internal/service/device_manager.go: the runtimes of the devices. Times are numbers of nanoseconds.
pub mod Units
pub mod Scanner
pub mod Device
pub mod Loop
pub mod Calls
pub mod Sample
pub mod Lifecycle
mod Tests
use quantix_cnnector_go.Prelude
