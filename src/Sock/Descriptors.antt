-- ===== src/Sock/Descriptors.antt =====
-- No descriptor that a socket opens is lost (socket/socket.cpp).
use sylar_net_server_framewo.Common.{
  ℕ, ◌+◌, ◌-◌, ◌^◌, ◌≡◌, refl, ap, subst, inl, inr, Bool, true, false, not, ◌&&◌, Option, none,
  some, List, ◌∷◌, arith, ◌==◌, Bool-cases, Option-cases, and_false,
}
use sylar_net_server_framewo.Addr.Defs.{
  Address, ipv4_address, ipv6_address, unix_address, unknown_address, get_family,
}
use sylar_net_server_framewo.Sock.Defs.{
  socket, tcp, create_unix_tcp_socket, Call, opened, bound, unlinked, Answers, Net, called, is_some,
  get_local_address, get_remote_address,
}
use sylar_net_server_framewo.Sock.Steps.{
  init_sock, new_sock, ensure_sock, close, connect, reconnect, listen, probe, bind_checked,
  bind_path, bind,
}
use sylar_net_server_framewo.Sock.Accepting.{accept-Accounted, accept-client, client-Accounted}
use sylar_net_server_framewo.Sock.States.{
  Step, binds, connects, reconnects, listens, closes, names_local, names_remote, accepts,
  accepted_by, Reached, fresh, then_step, same_sock, opens_of, closes_of, Accounted,
}

not_connected : (c : Bool) → (c && true) ≡ false → c ≡ false
not_connected true h = h
not_connected false h = refl

module _ (others : ℕ → ℕ) where
  init_sock-Accounted : (n : Net) → Accounted others n → Accounted others (init_sock n)
  unfolding init_sock
  init_sock-Accounted n v = elim (Bool-cases (n.self.type == tcp)) [
    | inl t ↦ rw t (record { balanced = v.balanced; held = v.held })
    | inr t ↦ rw t (record { balanced = v.balanced; held = v.held })
  ]

  new_sock-Accounted :
      (opens : Option ℕ) (n : Net)
      → n.self.sock ≡ none
      → Accounted others n
      → Accounted others (new_sock opens n)
  unfolding new_sock
  new_sock-Accounted none n e v =
      init_sock-Accounted
        (record { self = record n.self { sock = none }; calls = opened none ∷ n.calls })
        (record {
          balanced = λ fd. omega (arith, v.balanced fd, ap (λ s. same_sock s fd) e);
          held = subst (λ s. (n.self.connected && not (is_some s)) ≡ false) e v.held;
        })
  new_sock-Accounted (some g) n e v = record {
    balanced = λ fd. omega (arith, v.balanced fd, ap (λ s. same_sock s fd) e);
    held = and_false n.self.connected;
  }

  pub ensure_sock-Accounted :
      (opens : Option ℕ) (n : Net) → Accounted others n → Accounted others (ensure_sock opens n)
  ensure_sock-Accounted opens n v = elim (Option-cases n.self.sock) [
    | inl e ↦ simp e (new_sock-Accounted opens n e v)
    | inr (g, e) ↦ simp e v
  ]

  get_local_address-Accounted :
      (a : Answers) (n : Net) → Accounted others n → Accounted others (get_local_address a n).1
  unfolding get_local_address
  get_local_address-Accounted a n v = elim (Option-cases n.self.local_address) [
    | inl e ↦ elim (Option-cases a.sockname) [
      | inl e' ↦ simp (get_local_address, e, e') v
      | inr (k, e') ↦
          simp (get_local_address, e, e') (record { balanced = v.balanced; held = v.held })
    ]
    | inr (x, e) ↦ simp (get_local_address, e) v
  ]

  get_remote_address-Accounted :
      (a : Answers) (n : Net) → Accounted others n → Accounted others (get_remote_address a n).1
  unfolding get_remote_address
  get_remote_address-Accounted a n v = elim (Option-cases n.self.remote_address) [
    | inl e ↦ elim (Option-cases a.peername) [
      | inl e' ↦ simp (get_remote_address, e, e') v
      | inr (k, e') ↦
          simp (get_remote_address, e, e') (record { balanced = v.balanced; held = v.held })
    ]
    | inr (x, e) ↦ simp (get_remote_address, e) v
  ]

  pub close-Accounted : (n : Net) → Accounted others n → Accounted others (close n).1
  unfolding close
  close-Accounted n v = elim (Option-cases n.self.sock) [
    | inl e ↦
        let off : n.self.connected ≡ false =
          not_connected n.self.connected
            (subst (λ s. (n.self.connected && not (is_some s)) ≡ false) e v.held) in
        simp (e, off) v
    | inr (g, e) ↦
        simp (e, and_false (not n.self.connected))
          (record {
            balanced = λ fd. omega (arith, v.balanced fd, ap (λ s. same_sock s fd) e);
            held = refl;
          })
  ]

  connect-Accounted :
      (a : Answers) (address : Address) (timeout_ms : ℕ) (n : Net)
      → Accounted others n
      → Accounted others (connect a address timeout_ms n).1
  unfolding connect
  connect-Accounted a address timeout_ms n v =
      let n₁ : Net = ensure_sock a.opens n in
      let v₁ : Accounted others n₁ = ensure_sock-Accounted a.opens n v in
      elim (Option-cases n₁.self.sock) [
        | inl e ↦ simp e v₁
        | inr (g, e) ↦ elim (Bool-cases (get_family address == n.self.family)) [
          | inr other ↦ simp (e, other) v₁
          | inl same ↦ elim (Bool-cases a.connects) [
            | inr fails ↦
                simp (e, same, fails)
                  (close-Accounted _ (record {
                    balanced = λ fd. omega (arith, v₁.balanced fd, ap (λ s. same_sock s fd) e);
                    held = and_false n₁.self.connected;
                  }))
            | inl works ↦
                simp (e, same, works)
                  (get_remote_address-Accounted a _ (
                    get_local_address-Accounted a _ (record {
                      balanced = λ fd. omega (arith, v₁.balanced fd, ap (λ s. same_sock s fd) e);
                      held = refl;
                    })))
          ]
        ]
      ]

  reconnect-Accounted :
      (a : Answers) (timeout_ms : ℕ) (n : Net)
      → Accounted others n
      → Accounted others (reconnect a timeout_ms n).1
  unfolding reconnect
  reconnect-Accounted a timeout_ms n v = elim (Option-cases n.self.remote_address) [
    | inl e ↦ simp (reconnect, e) v
    | inr (x, e) ↦
        simp (reconnect, e)
          (connect-Accounted a x timeout_ms
            (record n { self = record n.self { local_address = none; remote_address = some x } })
            (record { balanced = v.balanced; held = v.held }))
  ]

  listen-Accounted :
      (a : Answers) (backlog : ℕ) (n : Net)
      → Accounted others n
      → Accounted others (listen a backlog n).1
  unfolding listen
  listen-Accounted a backlog n v = elim (Option-cases n.self.sock) [
    | inl e ↦ simp e v
    | inr (g, e) ↦ simp e (record { balanced = λ fd. v.balanced fd; held = v.held })
  ]

  bind_checked-Accounted :
      (a : Answers) (address : Address) (n : Net)
      → Accounted others n
      → Accounted others (bind_checked a address n).1
  unfolding bind_checked
  bind_checked-Accounted a address n v =
      let v' : Accounted others (called (bound n.self.sock address) n) = record {
        balanced = v.balanced;
        held = v.held;
      } in
      elim (Bool-cases a.binds) [
        | inl e ↦ simp e (get_local_address-Accounted a _ v')
        | inr e ↦ simp e v'
      ]

  pub close-none : (n : Net) → Accounted others n → (close n).1.self.sock ≡ none
  unfolding close
  close-none n v = elim (Option-cases n.self.sock) [
    | inl e ↦
        let off : n.self.connected ≡ false =
          not_connected n.self.connected
            (subst (λ s. (n.self.connected && not (is_some s)) ≡ false) e v.held) in
        simp (e, off) refl
    | inr (g, e) ↦ simp (e, and_false (not n.self.connected)) refl
  ]

-- The probe closes what it opens.
probe-balanced :
    (others : ℕ → ℕ) (a : Answers) (address : Address) (calls : List Call)
    → ((fd : ℕ) → opens_of fd calls ≡ closes_of fd calls + others fd)
    → (fd : ℕ)
    → opens_of fd (probe a address calls).1 ≡ closes_of fd (probe a address calls).1 + others fd
unfolding probe socket
probe-balanced others a address calls h fd =
    let a' : Answers = record a { opens = a.probe_opens; connects = a.probe_connects } in
    let start : Net = record { self = create_unix_tcp_socket; calls = calls } in
    let tried : Net = (connect a' address (2 ^ 64 - 1) start).1 in
    let v : Accounted others tried =
      connect-Accounted others a' address (2 ^ 64 - 1) start
        (record { balanced = λ g. omega (arith, h g); held = refl }) in
    let v' = close-Accounted others tried v in
    omega (arith, v'.balanced fd, ap (λ s. same_sock s fd) (close-none others tried v))

module _ (others : ℕ → ℕ) where
  bind_path-Accounted :
      (a : Answers) (address : Address) (path : List ℕ) (n : Net)
      → Accounted others n
      → Accounted others (bind_path a address path n).1
  unfolding bind_path
  bind_path-Accounted a (ipv4_address x) path n v =
      bind_checked-Accounted others a (ipv4_address x) n v
  bind_path-Accounted a (ipv6_address x) path n v =
      bind_checked-Accounted others a (ipv6_address x) n v
  bind_path-Accounted a (unknown_address x) path n v =
      bind_checked-Accounted others a (unknown_address x) n v
  bind_path-Accounted a (unix_address sun_path m_length) path n v =
      let address : Address = unix_address sun_path m_length in
      let after = probe a address n.calls in
      let kept : (fd : ℕ)
          → opens_of fd after.1 ≡ closes_of fd after.1 + (same_sock n.self.sock fd + others fd) =
        probe-balanced (λ fd. same_sock n.self.sock fd + others fd) a address n.calls v.balanced in
      elim (Bool-cases after.0) [
        | inl e ↦ simp e (record { balanced = kept; held = v.held })
        | inr e ↦ simp e (
            bind_checked-Accounted others a address (record n { calls = unlinked path ∷ after.1 })
              (record { balanced = kept; held = v.held }))
      ]

  bind-Accounted :
      (a : Answers) (address : Address) (path : List ℕ) (n : Net)
      → Accounted others n
      → Accounted others (bind a address path n).1
  unfolding bind
  bind-Accounted a address path n v =
      let n₁ : Net = ensure_sock a.opens n in
      let v₁ : Accounted others n₁ = ensure_sock-Accounted others a.opens n v in
      elim (Option-cases n₁.self.sock) [
        | inl e ↦ simp e v₁
        | inr (g, e) ↦ elim (Bool-cases (get_family address == n.self.family)) [
          | inr other ↦ simp (e, other) v₁
          | inl same ↦ simp (e, same) (bind_path-Accounted a address path n₁ v₁)
        ]
      ]

  Step-Accounted : (n n' : Net) → Step n n' → Accounted others n → Accounted others n'
  Step-Accounted n _ (binds a address path) v = bind-Accounted a address path n v
  Step-Accounted n _ (connects a address t) v = connect-Accounted others a address t n v
  Step-Accounted n _ (reconnects a t) v = reconnect-Accounted others a t n v
  Step-Accounted n _ (listens a backlog) v = listen-Accounted others a backlog n v
  Step-Accounted n _ closes v = close-Accounted others n v
  Step-Accounted n _ (names_local a) v = get_local_address-Accounted others a n v
  Step-Accounted n _ (names_remote a) v = get_remote_address-Accounted others a n v
  Step-Accounted n _ (accepts a accepted ctx) v = accept-Accounted others a accepted ctx n v

-- In every state that a socket reaches by its methods, `accept` included, and that a socket reaches which
-- `accept` has made: each descriptor that it opened itself or was given by `accept` is closed or is the
-- one that it holds, none is closed twice, and a connected socket holds one. A descriptor for which
-- `accept` makes no socket is not among them.
pub Reached-Accounted :
    (family type protocol : ℕ) (n : Net) → Reached family type protocol n → Accounted (λ fd. 0) n
unfolding socket
Reached-Accounted family type protocol _ fresh = record {
  balanced = λ fd. omega arith;
  held = refl;
}
Reached-Accounted family type protocol _ (then_step n n' r s) =
    Step-Accounted (λ fd. 0) n n' s (Reached-Accounted family type protocol n r)
Reached-Accounted family type protocol _ (accepted_by a fd ctx client n r e) =
    client-Accounted fd client (accept-client a fd ctx n client e)
