-- ===== src/Sock/Timeouts.antt =====
-- The timeouts of a socket, which `Socket` keeps in the descriptor's context (socket/socket.cpp).
use sylar_net_server_framewo.Common.{
  get_elem?-set_self, ℕ, zero, suc, ◌-◌, ◌%◌, ◌^◌, ◌<◌, ◌≡◌, refl, sym, ap, ◌∙◌, inl, inr, Bool,
  true, false, not, Option, none, some, List, [], ◌∷◌, arith, ltb, if◌then◌else◌, length, get_elem?,
  set,
}
use sylar_net_server_framewo.Common.Checked.{Checked, ok, undefined, ◌>>=◌}
use sylar_net_server_framewo.Common.Int.{ℤ, pos, negsuc}
use sylar_net_server_framewo.Fds.Defs.{FdCtx, Kernel, FdManager, get, set_timeout, get_timeout}
use sylar_net_server_framewo.Fds.Slots.{IsValid, slot, slot-get}
use sylar_net_server_framewo.Sock.Defs.{Socket}

-- `uint64_t` of an `int64_t`, and back
unfoldable pub to_uint64 : ℤ → ℕ
to_uint64 (pos n) = n % 2 ^ 64
to_uint64 (negsuc n) = (2 ^ 64 - 1 - n) % 2 ^ 64

unfoldable pub to_int64 : ℕ → ℤ
to_int64 w = if ltb w (2 ^ 63) then pos w else negsuc (2 ^ 64 - 1 - w)

-- `m_sock`
abbrev pub fd_of : Option ℕ → ℤ
fd_of none = negsuc 0
fd_of (some fd) = pos fd

-- The context that a pointer of the table points to
abbrev pub pointed : FdManager → Option ℕ → Checked (Option (ℕ × FdCtx))
pointed m none = ok none
pointed m (some ptr) = elim (get_elem? m.heap ptr) [
  | none ↦ undefined
  | some c ↦ ok (some (ptr, c))
]

-- `FdMgr::getInstance()->get(m_sock)`
unfoldable pub context : Kernel → Socket → FdManager → Checked (Option (ℕ × FdCtx))
context k s m = get k (fd_of s.sock) false m >>= λ r. pointed m r.0

-- `Socket::getSendTimeout` and `getRecvTimeout`, with `receive` for the second
abbrev pub timeout_of : Bool → Option (ℕ × FdCtx) → ℤ
timeout_of receive none = negsuc 0
timeout_of receive (some c) = to_int64 (get_timeout receive c.1)

unfoldable pub get_socket_timeout : Kernel → Bool → Socket → FdManager → Checked ℤ
get_socket_timeout k receive s m = context k s m >>= λ r. ok (timeout_of receive r)

-- `Socket::setSendTimeout` and `setRecvTimeout`
abbrev pub with_timeout : Bool → ℤ → FdManager → Option (ℕ × FdCtx) → FdManager
with_timeout receive v m none = m
with_timeout receive v m (some c) = record m {
  heap = set m.heap c.0 (set_timeout receive (to_uint64 v) c.1);
}

unfoldable pub set_socket_timeout : Kernel → Bool → ℤ → Socket → FdManager → Checked FdManager
set_socket_timeout k receive v s m = context k s m >>= λ r. ok (with_timeout receive v m r)

-- The values of an `int64_t`.
pub data IsInt64 : ℤ → Type 0 where
  is_pos : (n : ℕ) → n < 2 ^ 63 → IsInt64 (pos n)
  is_neg : (n : ℕ) → n < 2 ^ 63 → IsInt64 (negsuc n)

to_int64-to_uint64 : (v : ℤ) → IsInt64 v → to_int64 (to_uint64 v) ≡ v
unfolding to_int64 to_uint64
to_int64-to_uint64 _ (is_pos n h) =
    let e : n % 2 ^ 64 ≡ n = omega arith in
    let t : ltb n (2 ^ 63) ≡ true = ground arith in rw (e, t) refl
to_int64-to_uint64 _ (is_neg n h) =
    let e : (2 ^ 64 - 1 - n) % 2 ^ 64 ≡ 2 ^ 64 - 1 - n = omega arith in
    let t : ltb (2 ^ 64 - 1 - n) (2 ^ 63) ≡ false = ground arith in
    let back : 2 ^ 64 - 1 - (2 ^ 64 - 1 - n) ≡ n = omega arith in rw (e, t) (ap negsuc back)

pub get-known :
    (k : Kernel) (fd ptr : ℕ) (m : FdManager)
    → slot m.datas fd ≡ some ptr
    → get k (pos fd) false m ≡ ok (some ptr, m)
unfolding get
get-known k fd ptr m h = elim (slot-get m.datas fd) [
  | inl (a, b, c) ↦ let e : none ≡ some ptr = sym b ∙ h in cc
  | inr (a, b) ↦ rw (get, a, h) refl
]

pub context-known :
    (k : Kernel) (s : Socket) (fd ptr : ℕ) (m : FdManager) (c : FdCtx)
    → s.sock ≡ some fd
    → slot m.datas fd ≡ some ptr
    → get_elem? m.heap ptr ≡ some c
    → context k s m ≡ ok (some (ptr, c))
unfolding context
context-known k s fd ptr m c hs hd hc =
    ap (λ f. get k (fd_of f) false m >>= λ r. pointed m r.0) hs
    ∙ rw (get-known k fd ptr m hd, pointed, hc) refl

pub get_timeout-set_timeout :
    (receive : Bool) (w : ℕ) (c : FdCtx)
    → (get_timeout receive (set_timeout receive w c) ≡ w)
      × (get_timeout (not receive) (set_timeout receive w c) ≡ get_timeout (not receive) c)
      × ((set_timeout receive w c).fd ≡ c.fd)
unfolding get_timeout set_timeout
get_timeout-set_timeout true w c = (refl, refl, refl)
get_timeout-set_timeout false w c = (refl, refl, refl)

pub get_elem?-lt : (xs : List FdCtx) (i : ℕ) (c : FdCtx) → get_elem? xs i ≡ some c → i < length xs
get_elem?-lt [] i c e = cc
get_elem?-lt (x ∷ xs) zero c e = omega arith
get_elem?-lt (x ∷ xs) (suc i) c e = omega (arith, get_elem?-lt xs i c e)

-- On a valid table, a socket whose descriptor has a context reads back the timeout that was set on it,
-- of 64 bits; its other timeout stays.
pub get_socket_timeout-set_socket_timeout :
    (k : Kernel) (receive : Bool) (v : ℤ) (s : Socket) (fd ptr : ℕ) (m : FdManager)
    → IsValid m
    → IsInt64 v
    → s.sock ≡ some fd
    → slot m.datas fd ≡ some ptr
    → (m' : FdManager) × (set_socket_timeout k receive v s m ≡ ok m')
      × (get_socket_timeout k receive s m' ≡ ok v)
      × (get_socket_timeout k (not receive) s m' ≡ get_socket_timeout k (not receive) s m)
unfolding get_socket_timeout set_socket_timeout
get_socket_timeout-set_socket_timeout k receive v s fd ptr m valid h hs hd =
    let (c, e, f) = valid.owned fd ptr hd in
    let c' : FdCtx = set_timeout receive (to_uint64 v) c in
    let m' : FdManager = record m { heap = set m.heap ptr c' } in
    let before = context-known k s fd ptr m c hs hd e in
    let after =
      context-known k s fd ptr m' c' hs hd
        (get_elem?-set_self m.heap ptr c' (get_elem?-lt m.heap ptr c e)) in
    let (same, other, d) = get_timeout-set_timeout receive (to_uint64 v) c in
    (
      m',
      rw before refl,
      rw (after, same) (ap ok (to_int64-to_uint64 v h)),
      rw (after, before, other) refl,
    )
