-- ===== src/Authz.antt =====
-- internal/authz: who may do what, where.
pub mod Action
pub mod Resource
pub mod Anchor
pub mod Role
pub mod Grant
pub mod Principal
pub mod Decide
pub mod Attenuate
pub mod Guard
pub mod Coverage
pub mod Authority
pub mod Paths
pub mod Reading
pub mod Placement
pub mod Narrowing
pub mod Attenuation
pub mod Intersection
pub mod Enforcement
