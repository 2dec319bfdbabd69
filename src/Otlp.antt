-- ===== src/Otlp.antt =====
-- telemetry-processor/src/packages/otlp/otlp-protobuf.ts: the protobuf wire format.
-- A buffer is the list of its bytes, and the parse state is what has not been read.
pub mod Wire
pub mod Encode
pub mod Varint
pub mod Progress
pub mod Decode
