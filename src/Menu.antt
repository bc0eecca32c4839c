-- ===== src/Menu.antt =====
-- src/display/menu.h and menu.cpp: the menu on the display. `Items` models the objects derived from
-- `MenuBase`, `Render` their texts and the screen, `Navigate` the stack of menus and the cursor. `Shape` has the tree of
-- menus, `Valid` what holds of the statics, `Texts` and `DrawTotal` the drawing, `Kept`, `Steps`, `Invariant` and `Reach`
-- that it is kept, `Tree` and `Listed` the entries of the menus on the stack, `Choice` what an item that is chosen does.
pub mod Items
pub mod Render
pub mod Navigate
pub mod Shape
pub mod Valid
pub mod Texts
pub mod DrawTotal
pub mod Kept
pub mod Steps
pub mod Invariant
pub mod Choice
pub mod Tree
pub mod Listed
pub mod Reach
mod Tests
