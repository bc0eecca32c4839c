-- ===== src/Display.antt =====
-- src/display/display.cpp and ssd1306.cpp: the display and its status line. `Font` has the tables, `Commands`
-- the bytes sent to the controller of the display, `Frame` the buffer of its pixels and the driver, `Status`
-- the status line. `Glyph` and `Row` are about the pixels of a row of text, `Logo` about those of the logo,
-- `Line` about the text of the status line, `Bus` about the commands, `Start` about the start of the display,
-- `Screen` and `Lines` about what stands on the display.
pub mod Font
pub mod Commands
pub mod Bus
pub mod Frame
pub mod Glyph
pub mod Row
pub mod Logo
pub mod Start
pub mod Status
pub mod Line
pub mod Screen
pub mod Lines
mod Tests
