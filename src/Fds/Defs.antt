-- ===== src/Fds/Defs.antt =====
-- `FdCtx`, `FdManager` and their methods (socket/fdManager.h and .cpp). A method is one step: the
-- lock is not modelled. A shared pointer is an address of `heap`, where the objects stay; what
-- `fstat` and `fcntl` answer for a descriptor is a parameter.
use sylar_net_server_framewo.Common.{
  ℕ, zero, suc, ◌-◌, ◌*◌, ◌/◌, ◌^◌, Bool, true, false, not, ◌&&◌, Option, none, some, List, [], ◌∷◌,
  ◌++◌, leb, if◌then◌else◌, length, get_elem?, set, replicate,
}
use sylar_net_server_framewo.Common.Checked.{Checked, ok, undefined}
use sylar_net_server_framewo.Common.Int.{ℤ, pos, negsuc}

-- `uint64_t(-1)`
abbrev pub no_timeout : ℕ
no_timeout = 2 ^ 64 - 1

pub record FdCtx : Type 0 where
  pub is_init : Bool
  pub is_socket : Bool
  pub sys_nonblock : Bool
  pub user_nonblock : Bool
  pub is_closed : Bool
  pub fd : ℕ
  pub recv_timeout : ℕ
  pub send_timeout : ℕ

-- `stat` is none where `fstat` fails, and else says whether the descriptor is a socket; `nonblock`
-- is the flag `O_NONBLOCK` of `F_GETFL`.
pub record Kernel : Type 0 where
  pub stat : ℕ → Option Bool
  pub nonblock : ℕ → Bool

-- `set_nonblock` are the descriptors of the calls of `F_SETFL`, the newest first.
pub record FdManager : Type 0 where
  pub heap : List FdCtx
  pub datas : List (Option ℕ)
  pub set_nonblock : List ℕ

-- `FdCtx::init`: the context, and whether it sets `O_NONBLOCK`.
unfoldable pub init : Kernel → FdCtx → FdCtx × Bool
init k c =
    let stat : Option Bool = k.stat c.fd in
    let is_init : Bool = elim stat [ none ↦ false | some s ↦ true ] in
    let is_socket : Bool = elim stat [ none ↦ false | some s ↦ s ] in
    if c.is_init then (c, false) else (
      record c {
        is_init = is_init;
        is_socket = is_socket;
        sys_nonblock = is_socket;
        user_nonblock = false;
        is_closed = false;
        recv_timeout = no_timeout;
        send_timeout = no_timeout;
      },
      is_socket && not (k.nonblock c.fd),
    )

-- `FdCtx::FdCtx`
unfoldable pub fd_ctx : Kernel → ℕ → FdCtx × Bool
fd_ctx k fd = init k (record {
  is_init = false;
  is_socket = false;
  sys_nonblock = false;
  user_nonblock = false;
  is_closed = false;
  fd = fd;
  recv_timeout = no_timeout;
  send_timeout = no_timeout;
})

-- `setUserNonblock` and `setSysNonblock`
unfoldable pub set_user_nonblock : Bool → FdCtx → FdCtx
set_user_nonblock v c = record c { user_nonblock = v }

unfoldable pub set_sys_nonblock : Bool → FdCtx → FdCtx
set_sys_nonblock v c = record c { sys_nonblock = v }

-- The timeouts, with `receive` for `type == SO_RCVTIMEO`.
unfoldable pub set_timeout : Bool → ℕ → FdCtx → FdCtx
set_timeout receive v c =
    if receive then record c { recv_timeout = v } else record c { send_timeout = v }

unfoldable pub get_timeout : Bool → FdCtx → ℕ
get_timeout receive c = if receive then c.recv_timeout else c.send_timeout

-- `FdManager::FdManager`
abbrev pub fd_manager : FdManager
fd_manager = record { heap = []; datas = replicate 64 none; set_nonblock = [] }

-- `m_datas.resize(size)`
abbrev pub resize : ℕ → List (Option ℕ) → List (Option ℕ)
resize size ds = ds ++ replicate (size - length ds) none

-- The second half of `get`, with a new context.
unfoldable pub create : Kernel → ℕ → FdManager → Checked (Option ℕ × FdManager)
create k fd m =
    let c = fd_ctx k fd in
    let ptr = length m.heap in
    let datas = if leb (length m.datas) fd then resize (fd * 3 / 2) m.datas else m.datas in
    if leb (length datas) fd
    then undefined
    else ok (
      some ptr,
      record {
        heap = m.heap ++ c.0 ∷ [];
        datas = set datas fd (some ptr);
        set_nonblock = if c.1 then fd ∷ m.set_nonblock else m.set_nonblock;
      },
    )

-- `FdManager::get`. A descriptor below -1 indexes the vector out of bounds.
unfoldable pub get : Kernel → ℤ → Bool → FdManager → Checked (Option ℕ × FdManager)
get k (negsuc zero) auto_create m = ok (none, m)
get k (negsuc (suc n)) auto_create m = undefined
get k (pos fd) auto_create m = elim (get_elem? m.datas fd) [
  | none ↦ if not auto_create then ok (none, m) else create k fd m
  | some none ↦ if not auto_create then ok (none, m) else create k fd m
  | some (some ptr) ↦ ok (some ptr, m)
]

-- `FdManager::del`
unfoldable pub del : ℤ → FdManager → Checked FdManager
del (negsuc n) m = undefined
del (pos fd) m =
    if leb (length m.datas) fd then ok m else ok (record m { datas = set m.datas fd none })
