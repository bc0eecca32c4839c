-- ===== src/Usb.antt =====
-- src/output/usb: what the controller sends to the consoles.
-- `Fields` and `Descriptor` are the host's view of a report: packed fields, and the widths that a report
-- descriptor announces. `Hid` models the requests that all drivers share, `Probe` the choice of the
-- driver, `Nx` and `Ps3` the drivers of the Switch and of the PlayStation 3. `Write` models the writes to the endpoint, `Pins` joins the Switch to
-- the input code.
pub mod Fields
pub mod Descriptor
pub mod Hid
pub mod Report
pub mod Nx
pub mod Ps3
mod Tests
pub mod Probe
pub mod Write
pub mod Status
pub mod Start
pub mod Pins
