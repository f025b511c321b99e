-- ===== src/Backend.antt =====
-- The backend: src/Backend, over the library liblightnvm, which stands in `Nvm` as a parameter.
-- `Entry` and `Codec` are the key-value pairs and their bytes, `State` the global variables, `Reader`,
-- `Eraser` and `Writer` the functions of SSDRead, IODisk and SSDWrite.
pub mod Nvm
pub mod Entry
pub mod Codec
pub mod State
pub mod Reader
pub mod Eraser
pub mod Writer
pub mod Steps
pub mod Pages
pub mod Erases
pub mod Pointers
