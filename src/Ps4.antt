-- ===== src/Ps4.antt =====
-- The PlayStation 4 output (src/output/usb/ps4): the authentication state machine and the reports.
pub mod Auth
pub mod Report
