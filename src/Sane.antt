-- ===== src/Sane.antt =====
-- The wrapper round the SANE library: sane_wrapper/include, sane_wrapper/src and sane_wrapper/mock.
pub mod Status
pub mod Backend
pub mod Device
pub mod Mock
