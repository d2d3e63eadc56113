-- ===== src/Sink.antt =====
-- pkg/engine/file_sink.go and pkg/engine/fd_sink.go: downloads into a file.
pub mod Pool
pub mod Steps
pub mod Table
pub mod Safety
pub mod Completion
pub mod Start
pub mod Multipart
pub mod Resume
pub mod Sessions
pub mod Work
pub mod Ready
pub mod Ending
pub mod Single
pub mod Saving
pub mod Dest
pub mod Entry
