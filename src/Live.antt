-- ===== src/Live.antt =====
-- internal/live: what passes between the host of a session and its terminals, byte by byte.
pub mod Chord
pub mod Crlf
pub mod Frame
mod Tests
