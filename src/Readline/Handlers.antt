-- ===== src/Readline/Handlers.antt =====
-- src/readline/readline.c: the handlers of the commands. Each is given the words behind its own name, up
-- to the null pointer.
pub mod Passing
pub mod Disks
pub mod Parts
pub mod Filesystems
pub mod General
