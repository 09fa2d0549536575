-- ===== src/Ipc.antt =====
-- Inter-process communication: kernel/spectre-kernel/src/ipc.rs. `Port` and `Endpoint` are
-- independent; the types that both use stand here.
pub mod Port
pub mod Endpoint
use whisez_os.Prelude.{ℕ, List}

pub data IpcError : Type 0 where
  denied would_block peer_gone too_large overflow timed_out : IpcError

-- `payload` holds the 24 bytes, `from` the process.
pub record Notification : Type 0 where
  pub label : ℕ
  pub payload : List ℕ
  pub from : ℕ

abbrev pub inline_max : ℕ
inline_max = 256

pub data Grant : Type 0 where
  move share : Grant

pub record PageGrant : Type 0 where
  pub base : ℕ
  pub page_count : ℕ
  pub mode : Grant
