-- ===== src/Mesh.antt =====
-- src/transport/unix_mesh.rs: the mesh of Unix-domain sockets.
pub mod Frame
pub mod NodeId
pub mod Ordinal
pub mod Discovery
pub mod Peers
pub mod Send
pub mod Loops
pub mod Utf8
pub mod Connect
pub mod Lifecycle
pub mod Delivery
pub mod Sleep
