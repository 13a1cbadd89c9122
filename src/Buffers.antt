-- ===== src/Buffers.antt =====
-- libsponge/util/buffer.hh and buffer.cc: reference-counted strings, lists of them, and views.
pub mod Buffer
pub mod BufferList
pub mod BufferViewList
mod Tests
