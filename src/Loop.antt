-- ===== src/Loop.antt =====
-- src/modules/base/loop/tinyara_loop.c: the event loop of the Tinyara platform, on libuv.
--
-- An `unsigned short` is a number below 65536, and a pointer a number, 0 for NULL.
pub mod Align
pub mod Vector
pub mod Callbacks
pub mod Kinds
mod Examples
