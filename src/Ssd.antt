-- ===== src/Ssd.antt =====
-- NVMevirt/ssd.c and ssd.h: the NAND array, its timing, the PCIe link and the write buffer.
pub mod Params
pub mod Buffer
pub mod Nand
pub mod Timing
mod Tests
