-- ===== src/Core.antt =====
-- The crate kawach-core: identifiers, errors, the hex codec, the scope rules, the capability events.
pub mod Refs
pub mod Error
pub mod Hex
pub mod Glob
pub mod Scope
pub mod Capability
pub mod Secret
pub mod Effect
pub mod Model
pub mod Traits
pub mod Display
