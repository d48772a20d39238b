-- ===== src/Device.antt =====
-- firmware/esphome/components/openathan_device: what the device service decides, without its
-- threads and its HTTP server.
pub mod Wifi
pub mod Protocol
pub mod Release
pub mod Credentials
pub mod Usb
