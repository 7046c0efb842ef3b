-- ===== src/Control.antt =====
-- The control protocol, version 2: linux/src/control_protocol.cpp and control_protocol.hpp.
pub mod Hex
pub mod Os
pub mod Wire
pub mod Transfer
pub mod Frames
pub mod Evp
pub mod Keys
pub mod Gcm
pub mod Channel
pub mod Examples
