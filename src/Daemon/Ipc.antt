-- ===== src/Daemon/Ipc.antt =====
-- src/06-mini-project/common/common_ipc.h and src/06-mini-project/daemon/ipc/ipc_server.c: the
-- messages and their dispatch, the life of the server, and what is proved of both.
mod Message
pub mod Server
pub mod Life
unfoldable pub use Message.*
