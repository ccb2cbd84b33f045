-- ===== src/Examples.antt =====
-- Runs of the modelled code, and the theorems at inputs that exercise it.
mod TableCodec
mod Rotation
mod Journal
mod Journalled
mod Audit
mod Anchors
mod Core
mod Engine
mod Mock
mod Traced
