-- ===== src/Np.antt =====
-- np/src: the client.
pub mod Error
pub mod Env
pub mod Client
pub mod Dispatch
pub mod Tunnel
pub mod Run
mod Tests
