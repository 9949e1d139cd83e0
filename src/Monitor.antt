-- ===== src/Monitor.antt =====
-- internal/domain/monitor/types.go: the data that Core and the instance exchange (Types), the
-- lenient decoding of a monitoring (Numbers, Flexible, Decode) and what it guarantees (Laws).
pub mod Examples
pub mod Types
pub mod Numbers
pub mod Flexible
pub mod Decode
