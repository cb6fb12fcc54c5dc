-- ===== src/Sock/Transfers.antt =====
-- `send`, `sendTo`, `recv` and `recvFrom` of `Socket`, each with a buffer and with several
-- (socket/socket.cpp).
use sylar_net_server_framewo.Common.{
  Bool, none, ℕ, ◌≡◌, refl, sym, ◌∙◌, ◌⊎◌, inl, inr, true, false, not, ◌&&◌, Option, some, List, [],
  ◌∷◌, if◌then◌else◌, Bool-cases, Option-cases,
}
use sylar_net_server_framewo.Common.Int.{ℤ, negsuc}
use sylar_net_server_framewo.Addr.Defs.{Address}
use sylar_net_server_framewo.Addr.Unix.{get_addr_len}
use sylar_net_server_framewo.Sock.Defs.{Socket, Net, is_some, is_valid}
use sylar_net_server_framewo.Sock.States.{Reached}
use sylar_net_server_framewo.Sock.Descriptors.{Reached-Accounted}

-- The methods; those with `_all` take an array of buffers.
pub data Method : Type 0 where
  send send_all recv recv_all : Method
  send_to send_to_all recv_from recv_from_all : Address → Method

-- The system calls, with the descriptor, the length or the number of buffers, the flags, and the
-- address with its length.
pub data Transfer : Type 0 where
  send_call recv_call send_msg recv_msg : Option ℕ → ℕ → ℕ → Transfer
  send_to_call recv_from_call send_msg_to recv_msg_from : Option ℕ → ℕ → ℕ → Address → ℕ → Transfer

abbrev pub call_of : Method → Option ℕ → ℕ → ℕ → Transfer
call_of send sock size flags = send_call sock size flags
call_of send_all sock size flags = send_msg sock size flags
call_of (send_to a) sock size flags = send_to_call sock size flags a (get_addr_len a)
call_of (send_to_all a) sock size flags = send_msg_to sock size flags a (get_addr_len a)
call_of recv sock size flags = recv_call sock size flags
call_of recv_all sock size flags = recv_msg sock size flags
call_of (recv_from a) sock size flags = recv_from_call sock size flags a (get_addr_len a)
call_of (recv_from_all a) sock size flags = recv_msg_from sock size flags a (get_addr_len a)

-- The methods, with the system call's answer: what they return and the calls that they make.
unfoldable pub transfer : Method → ℕ → ℕ → ℤ → Socket → ℤ × List Transfer
transfer m size flags answer s =
    if s.connected then (answer, call_of m s.sock size flags ∷ []) else (negsuc 0, [])

held_sock :
    (s : Socket)
    → (s.connected && not (is_valid s)) ≡ false
    → s.connected ≡ true
    → (fd : ℕ) × (s.sock ≡ some fd)
held_sock s h c = elim (Option-cases s.sock) [
  | inl e ↦ let e' : true ≡ false = sym (λ i. c i && not (is_some (e i))) ∙ h in cc
  | inr (fd, e) ↦ (fd, e)
]

-- What a system call does, read off the call.
pub record View : Type 0 where
  pub sends : Bool
  pub many : Bool
  pub descriptor : Option ℕ
  pub size : ℕ
  pub flags : ℕ
  pub peer : Option (Address × ℕ)

abbrev pub view : Transfer → View
view (send_call d n f) = record {
  sends = true;
  many = false;
  descriptor = d;
  size = n;
  flags = f;
  peer = none;
}
view (recv_call d n f) = record {
  sends = false;
  many = false;
  descriptor = d;
  size = n;
  flags = f;
  peer = none;
}
view (send_msg d n f) = record {
  sends = true;
  many = true;
  descriptor = d;
  size = n;
  flags = f;
  peer = none;
}
view (recv_msg d n f) = record {
  sends = false;
  many = true;
  descriptor = d;
  size = n;
  flags = f;
  peer = none;
}
view (send_to_call d n f a l) = record {
  sends = true;
  many = false;
  descriptor = d;
  size = n;
  flags = f;
  peer = some (a, l);
}
view (recv_from_call d n f a l) = record {
  sends = false;
  many = false;
  descriptor = d;
  size = n;
  flags = f;
  peer = some (a, l);
}
view (send_msg_to d n f a l) = record {
  sends = true;
  many = true;
  descriptor = d;
  size = n;
  flags = f;
  peer = some (a, l);
}
view (recv_msg_from d n f a l) = record {
  sends = false;
  many = true;
  descriptor = d;
  size = n;
  flags = f;
  peer = some (a, l);
}

-- What a method is for.
abbrev pub is_send : Method → Bool
is_send send = true
is_send send_all = true
is_send (send_to a) = true
is_send (send_to_all a) = true
is_send recv = false
is_send recv_all = false
is_send (recv_from a) = false
is_send (recv_from_all a) = false

abbrev pub has_array : Method → Bool
has_array send = false
has_array send_all = true
has_array (send_to a) = false
has_array (send_to_all a) = true
has_array recv = false
has_array recv_all = true
has_array (recv_from a) = false
has_array (recv_from_all a) = true

abbrev pub address_of : Method → Option Address
address_of send = none
address_of send_all = none
address_of (send_to a) = some a
address_of (send_to_all a) = some a
address_of recv = none
address_of recv_all = none
address_of (recv_from a) = some a
address_of (recv_from_all a) = some a

-- The call that a method should make.
abbrev pub wanted : Method → ℕ → ℕ → ℕ → View
wanted m fd size flags = record {
  sends = is_send m;
  many = has_array m;
  descriptor = some fd;
  size = size;
  flags = flags;
  peer = elim (address_of m) [ none ↦ none | some a ↦ some (a, get_addr_len a) ];
}

view-call_of :
    (m : Method) (fd size flags : ℕ)
    → view (call_of m (some fd) size flags) ≡ wanted m fd size flags
view-call_of send fd size flags = refl
view-call_of send_all fd size flags = refl
view-call_of (send_to a) fd size flags = refl
view-call_of (send_to_all a) fd size flags = refl
view-call_of recv fd size flags = refl
view-call_of recv_all fd size flags = refl
view-call_of (recv_from a) fd size flags = refl
view-call_of (recv_from_all a) fd size flags = refl

-- In a state that a socket reaches by its methods, a transfer on a socket that is not connected makes no
-- system call and returns -1; on a connected one it makes one call and returns its answer. The call sends
-- or receives as the method does, with one buffer or with several, on the descriptor that the socket
-- holds, with the size and the flags that it was given, and with the address of the method, if it has
-- one, and the length of this address.
pub transfer-held :
    (family type protocol : ℕ) (n : Net) (m : Method) (size flags : ℕ) (answer : ℤ)
    → Reached family type protocol n
    → (n.self.connected ≡ false) × (transfer m size flags answer n.self ≡ (negsuc 0, []))
      ⊎ (fd : ℕ) × (call : Transfer) × (n.self.connected ≡ true)
        × (n.self.sock ≡ some fd)
        × (transfer m size flags answer n.self ≡ (answer, call ∷ []))
        × (view call ≡ wanted m fd size flags)
unfolding transfer
transfer-held family type protocol n m size flags answer r =
    let v = Reached-Accounted family type protocol n r in
    elim (Bool-cases n.self.connected) [
      | inr off ↦ inl (off, rw off refl)
      | inl on ↦
          let (fd, e) = held_sock n.self v.held on in
          inr (
            fd,
            call_of m (some fd) size flags,
            on,
            e,
            rw (on, e) refl,
            view-call_of m fd size flags,
          )
    ]
