-- ===== src/Systemio.antt =====
-- src/modules/systemio: the modules that hand out one node for each requested device.
pub mod Nodes
pub mod Registry
pub mod I2c
pub mod Pwm
pub mod Spi
pub mod Serial
pub mod Gpio
pub mod Adc
mod Examples
