-- ===== src/Lib.antt =====
-- A model of passinglink, the firmware of a USB game controller, with its properties.
--
-- The firmware reads the pins of a board, debounces them, cleans opposite directions (SOCD), maps the
-- result to the buttons of a game console, and answers the console's USB requests; for the PlayStation 4
-- it also answers an authentication challenge.
--
-- Parts, and the files that model them:
--   Common            tests, lists and signed values that the other modules share
--   Socd              src/input/socd.h, src/input/socd.cpp: `input_socd_parse`
--   Input             src/input/input.h, input.cpp, profile.h, profile.cpp, touchpad.h
--     Types           the data, and the statics as the record `Input`
--     Lock            `input_get_lock_tick`, `input_set_locked`
--     Profile         the button mappings, the SOCD entries, and the profiles
--     MenuButton      `input_profile_parse_menu`
--     Compose         `input_profile_parse` and what it writes
--     Parse           `input_debounce`, `input_parse_mode`, `input_parse`
--     Taken, Shown    when the menu takes the input, and what the host is shown
--     Pins            `input_gpio_init`, `input_get_raw_state`, `input_get_state`
--     Panthera        src/input/touchpad/panthera.cpp: polling the touchpad
--   Menu              src/display/menu.h, menu.cpp
--     Items           the objects derived from `MenuBase`, and the statics as the record `Menu`
--     Render          the texts, and `menu_draw`
--     Navigate        the stack of menus, the cursor, and `menu_input`
--     Tree, Listed    which entries each menu has, and that the stack follows them
--   Display           src/display/display.cpp, ssd1306.cpp, font.h, logo.h
--     Commands, Bus   the commands of the display's controller, and their messages
--     Frame           the class `Display`, and the driver
--     Glyph, Row, Logo
--                     the pixels of a row of text, and of the logo
--     Status, Line    the status line, and its text
--     Start, Screen, Lines
--                     what the display shows: started, with a new status, with the menu
--   Input.Queue       src/input/queue.h, queue.cpp: the nodes, allocating, freeing and playing them
--   Gundam            src/opt/gundam.cpp: `adjust_cam`, `set_cam`
--   Bt                src/bt/bt.cpp, and in Bt.Camera the services of src/opt/gundam.cpp
--   Shell             src/shell.cpp: the shell commands for the input
--   Malloc            src/malloc.cpp: `malloc` and `free`
--   Containers        the stack, the bitmap and the sort of src/types.h, the bitset of src/malloc.cpp
--   Util              src/util.h, and texts of the C library
--   Led               src/output/led.h, led.cpp: counters, setting and flashing
--   Provisioning      src/provisioning.cpp: the write buffer, and flushing it to flash
--   Usb.Hid           src/output/usb/hid.h, hid.cpp: requests that passinglink answers itself
--   Usb.Write         src/output/usb/hid.cpp: the deferred writes of input reports
--   Usb.Hid.Upload, Usb.Hid.Provisioned
--                     provisioning by the host, up to the next start
--   Usb.Status        src/output/usb/hid.cpp: `usb_status_cb`
--   Usb.Start         src/output/usb/hid.cpp: `usb_hid_init`, `usb_hid_uninit`
--   Metrics           src/metrics/metrics.cpp: the average latency of writes
--   Usb.Probe         src/output/usb/usb.cpp: the choice of the driver
--   Usb.Nx, Usb.Ps3   src/output/usb/nx, src/output/usb/ps3: descriptors, reports, player LEDs
--   Usb.Pins          the input code and the driver of the Switch together
--   Usb.Fields, Usb.Descriptor, Usb.Report
--                     packed fields, the host's reading of a descriptor, what the drivers share
--   Ps4.Report        src/output/usb/ps4/hid.h, hid.cpp: descriptor, reports, packets with a CRC
--   Ps4.Auth          src/output/usb/ps4/auth.h, auth.cpp: nonce, signing thread, signature chunks
--
-- A function that changes statics takes the record of them and returns the new one. A fault of the C++
-- code (PANIC, an access out of range) is `none`. Calls that leave a part are listed in its state.
-- What the device tree and the options of the build fix is the record `Board`; the clock's conversions
-- are numbers in it. A tick is an argument. Hashing and signing by mbedtls are one function argument of
-- the signing thread, which may fail; nothing else is assumed of it. The CRC of the PlayStation 4's
-- packets is an argument too, and what the flash driver answers.
--
-- Every loop is a recursion on a list or on a count, except the freeing of a list of nodes, which gets
-- 1024 turns, as many as there are nodes; the lists of the camera have at most 257. Runs of the delayed
-- work items (a flashing LED, the probing of drivers) are counted, and the theorems say how many are
-- enough.
--
-- What the I2C bus answers to the display and the touchpad, what the ports of the pins hold, and what the
-- Bluetooth stack does with the value of an attribute, are arguments as well.
--
-- Not modelled: the order of the start in main.cpp, the vendor and product numbers that the drivers set,
-- the tables of the Bluetooth services and of the shell, the reset pulse of the touchpad, and logging: they
-- are calls of Zephyr only.
pub mod Common
pub mod Util
pub mod Containers
pub mod Socd
pub mod Input
pub mod Led
pub mod Provisioning
pub mod Usb
pub mod Ps4
pub mod Menu
pub mod Malloc
pub mod Gundam
pub mod Metrics
pub mod Display
pub mod Bt
pub mod Shell
