-- ===== src/Platform.antt =====
-- Drivers and connections, src/platform/.
pub mod Dac
pub mod Net
pub mod Udp
pub mod Wifi
