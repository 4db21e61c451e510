-- ===== src/Streams.antt =====
-- faust/streams.py: streams that take their values in batches, and the iteration over a stream.
pub mod Take
pub mod Iteration
