-- ===== src/Uart.antt =====
-- inc/bluetooth/MicroBitUARTService.h and source/bluetooth/MicroBitUARTService.cpp: a serial port
-- over Bluetooth with a circular buffer in each direction.
pub mod State
pub mod Receive
pub mod Transmit
mod Tests
