-- ===== src/Ssh.antt =====
-- internal/ssh: the host-key check and the client. The protocol itself is the environment's; the
-- prefix that its library puts before an error of the host-key check is not modelled.
pub mod HostKey
pub mod Client
pub mod Pinning
pub mod Guarded
