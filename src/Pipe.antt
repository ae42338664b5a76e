-- ===== src/Pipe.antt =====
-- kernel/fs/pipefs/pipefs.c: pipes as circular buffers of 1024 bytes.
pub mod Files
pub mod Copying
pub mod Ops
pub mod Ends
pub mod Contents
pub mod Turns
pub mod Adding
pub mod Reading
mod Tests
