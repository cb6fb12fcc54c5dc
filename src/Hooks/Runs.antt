-- ===== src/Hooks/Runs.antt =====
-- Runs of the hooked calls.
use sylar_net_server_framewo.Common.{◌↔◌, ◌≡◌, refl, true, false, some, List, [], ◌∷◌}
use sylar_net_server_framewo.Common.Checked.{ok}
use sylar_net_server_framewo.Fds.Defs.{FdCtx, Kernel, no_timeout}
use sylar_net_server_framewo.Hooks.Defs.{
  eintr, eagain, value, error, Attempt, Flags, Hooks, fcntl_getfl, ioctl_fionbio,
}
use sylar_net_server_framewo.Hooks.Calls.{Connecting, einprogress, connect_with_timeout}
use sylar_net_server_framewo.Hooks.Connecting.{Connects, connect_with_timeout_iff}
use sylar_net_server_framewo.Hooks.Flags.{Has, ioctl_fionbio-blocks}

-- Interrupted, then would block, then seven bytes.
abbrev three_attempts : List Attempt
three_attempts =
    record { answer = error eintr; added = true; expired = false }
    ∷ record { answer = error eagain; added = true; expired = false }
    ∷ record { answer = value 7; added = true; expired = false }
    ∷ []

abbrev open_socket : FdCtx
open_socket = record {
  is_init = true;
  is_socket = true;
  sys_nonblock = true;
  user_nonblock = false;
  is_closed = false;
  fd = 0;
  recv_timeout = no_timeout;
  send_timeout = no_timeout;
}

abbrev one_socket : Hooks
one_socket = record {
  fds = record { heap = open_socket ∷ []; datas = some 0 ∷ []; set_nonblock = [] };
  flags = λ fd. record { nonblock = true; others = 2 };
}

abbrev kernel : Kernel
kernel = record { stat = λ fd. some true; nonblock = λ fd. true }

one_socket-Has : Has 0 0 open_socket one_socket.fds
one_socket-Has = record { here = refl; ctx = refl }

abbrev user_flags : Flags
user_flags = record { nonblock = false; others = 4 }

ioctl_example :
    (h' : Hooks) × (ioctl_fionbio kernel 0 false one_socket ≡ ok h')
    × (fcntl_getfl kernel 0 h' ≡ ok (record (one_socket.flags 0) { nonblock = false }))
    × ((h'.flags 0).nonblock ≡ false)
ioctl_example = ioctl_fionbio-blocks kernel 0 0 open_socket one_socket one_socket-Has refl

-- The connection is in progress, and `addEvent` fails.
abbrev unwatched : Connecting
unwatched = record {
  answer = error einprogress;
  added = false;
  expired = false;
  so_error = value 0;
}

connect_hooked_example :
    (connect_with_timeout true kernel 0 true one_socket.fds unwatched ≡ ok (value 0))
    ↔ Connects true unwatched
connect_hooked_example =
    connect_with_timeout_iff kernel 0 0 open_socket true one_socket.fds unwatched one_socket-Has
      refl refl
