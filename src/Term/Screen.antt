-- ===== src/Term/Screen.antt =====
-- The screen of components/term_core/src/screen.cpp and include/term_core/screen.hpp.
pub mod State
pub mod Steps
pub mod Moves
pub mod Lines
pub mod Scrolled
pub mod Chars
pub mod Printing
pub mod Modes
pub mod Sequences
pub mod Resizing
pub mod Scroll
pub mod Erase
pub mod Pages
pub mod Print
pub mod Control
