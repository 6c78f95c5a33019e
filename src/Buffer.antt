-- ===== src/Buffer.antt =====
-- logme/source/Buffer: the byte buffers and the queue of them behind a file backend.
pub mod Data
pub mod Queue
