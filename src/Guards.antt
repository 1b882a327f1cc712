-- ===== src/Guards.antt =====
-- Guards that stand beside the gateway: durable nonces (src/governance/durable_replay.py) and
-- fencing epochs (src/governance/pg_fencing.py).
pub mod Replay
pub mod ReplayOnce
pub mod Fencing
pub mod FencingEpoch
pub mod Retry
pub mod RetryBounds
