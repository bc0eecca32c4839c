-- ===== src/Input.antt =====
-- src/input: from the raw state of the GPIO pins to the state that is shown to the host.
-- `Types` has the data of input.h and touchpad.h, `Profile` models profile.cpp, `Parse` models input.cpp.
pub mod Types
pub mod Touchpad
pub mod Panthera
pub mod Lock
pub mod Profile
pub mod MenuButton
pub mod Compose
pub mod Parse
pub mod Debounce
pub mod Bits
pub mod Output
pub mod Taken
pub mod Shown
pub mod Room
pub mod Queue
pub mod Pins
mod Tests
