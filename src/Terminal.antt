-- ===== src/Terminal.antt =====
-- kernel/src/terminal: the escape sequences, the screen, and the shell.
pub mod Navitts
pub mod Framebuffer
pub mod Shell
