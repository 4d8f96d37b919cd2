-- ===== src/Sdk.antt =====
-- packages/sdk: what a client makes of the events and frames of a session, and how it sends a prompt.
pub mod Activity
pub mod Delivery
