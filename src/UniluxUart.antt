-- ===== src/UniluxUart.antt =====
-- esphome/components/unilux_uart/unilux_uart.h and unilux_uart.cpp: the ESPHome component that
-- connects the protocol to entities.
pub mod Modes
pub mod Send
pub mod Climate
pub mod Number
pub mod Select
pub mod Component
pub mod Configuration
pub mod System
mod Tests
