-- ===== src/Windows.antt =====
-- The Windows program's side of the control connection: windows/src/net, and the manager of
-- windows/src/rtsp that sends over it.
pub mod Settings
pub mod Reader
pub mod ErrorReports
pub mod Connection
pub mod Activation
pub mod MediaUrl
pub mod Descriptor
pub mod Devices
pub mod Accept
pub mod Commands
mod Examples
