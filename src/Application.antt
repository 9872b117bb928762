-- ===== src/Application.antt =====
-- lib/CajuiApplication/src: the receiver's controller and its limit on repeated ACKs.
pub mod Limiter
pub mod Receiving
pub mod Window
