-- ===== src/Protocol.antt =====
-- packages/protocol: the JSON values and the canonical events that the other parts exchange.
pub mod Json
pub mod Event
