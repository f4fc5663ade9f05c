-- ===== src/Examples.antt =====
-- Concrete runs: tests of the definitions, and the theorems at inputs that meet their hypotheses.
mod Regions
mod Connecting
mod Accepting
mod Setting
mod Keying
mod Sending
mod Receiving
mod Streaming
mod Polling
mod Releasing
mod Addressing
mod Reaching
mod Initialising
mod Opening
