-- ===== src/TcpServer/Programs.antt =====
-- The two programs on the server of lib/tcp_utils.c: what disk/src/server.c and fs/src/server.c
-- register as callbacks.
use cs2310_prj.Base.{ℕ, Option, none, some, List, [], ℤ}
use cs2310_prj.TcpBuffer.{TcpBuffer, init_buffer}
use cs2310_prj.Disk.{Disk}
use cs2310_prj.DiskServer.{Served, served, crash}
use cs2310_prj.DiskServer
use cs2310_prj.Fs.{Device}
use cs2310_prj.Fs.Dispatch.{Server}
use cs2310_prj.Fs.Dispatch
use cs2310_prj.TcpServer.{Callbacks}

abbrev pub outcome_of : Served → Option (ℤ × TcpBuffer × Disk)
outcome_of (served d wb code) = some (code, wb, d)
outcome_of crash = none

-- The disk server keeps nothing for a connection.
abbrev pub disk_callbacks : Callbacks Disk
disk_callbacks = record {
  on_connection = λ i d. some d;
  on_recv = λ i wb msg d. outcome_of (DiskServer.on_recv d wb msg);
  cleanup = λ i d. some d;
}

module _ {D : Device} where
  abbrev pub state_of : {A : Type 0} → Option (A × Server D) → Option (Server D)
  state_of none = none
  state_of (some (a, srv)) = some srv

  -- The buffer of a session, as the handler left it.
  abbrev pub buffer_of : ℕ → TcpBuffer → Server D → TcpBuffer
  buffer_of i wb srv = elim (srv.sessions i) [ none ↦ wb | some s ↦ s.wb ]

  abbrev pub answered : ℕ → TcpBuffer → Option (ℤ × Server D) → Option (ℤ × TcpBuffer × Server D)
  answered i wb none = none
  answered i wb (some (code, srv)) = some (code, buffer_of i wb srv, srv)

  -- A new session has no buffer yet: `on_recv` gives it that of its connection.
  abbrev pub fs_callbacks : (ℕ → List ℕ) → Callbacks (Server D)
  fs_callbacks time_text = record {
    on_connection = λ i srv. state_of (Dispatch.on_connection i (init_buffer []) srv);
    on_recv = λ i wb msg srv. answered i wb (Dispatch.on_recv time_text i wb msg srv);
    cleanup = λ i srv. state_of (Dispatch.cleanup i srv);
  }
