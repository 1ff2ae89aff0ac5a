-- ===== src/Term.antt =====
-- The terminal emulator of components/term_core: the parser, the screen, and the terminal that
-- joins them.
pub mod Cell
pub mod Grid
pub mod Parser
pub mod Terminal
pub mod Decimal
pub mod Screen
mod Tests
