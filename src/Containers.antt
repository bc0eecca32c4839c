-- ===== src/Containers.antt =====
-- The containers of src/types.h.
pub mod Stack
pub mod Sort
pub mod Bitmap
