-- ===== src/Sock/Connecting.antt =====
-- What `Socket::connect` and `reconnect` leave behind (socket/socket.cpp).
use sylar_net_server_framewo.Common.{
  ℕ, ◌≡◌, refl, sym, ap, ◌∙◌, subst, inl, inr, Bool, true, false, not, none, some, ◌∷◌, arith, ◌==◌,
  if◌then◌else◌, Bool-cases, Option-cases, and_false,
}
use sylar_net_server_framewo.Addr.Defs.{Address, get_family}
use sylar_net_server_framewo.Sock.Defs.{
  Socket, Answers, Net, is_some, is_valid, get_local_address, get_remote_address, connecting,
}
use sylar_net_server_framewo.Sock.Steps.{ensure_sock, close, connect, reconnect}

pub get_local_address-keeps :
    (a : Answers) (n : Net)
    → ((get_local_address a n).1.self.remote_address ≡ n.self.remote_address)
      × ((get_local_address a n).1.self.connected ≡ n.self.connected)
      × ((get_local_address a n).1.self.sock ≡ n.self.sock)
unfolding get_local_address
get_local_address-keeps a n = elim (Option-cases n.self.local_address) [
  | inl e ↦ elim (Option-cases a.sockname) [
    | inl e' ↦ simp (get_local_address, e, e') (refl, refl, refl)
    | inr (k, e') ↦ simp (get_local_address, e, e') (refl, refl, refl)
  ]
  | inr (x, e) ↦ simp (get_local_address, e) (refl, refl, refl)
]

pub get_remote_address-known :
    (a : Answers) (n : Net) (x : Address)
    → n.self.remote_address ≡ some x
    → (get_remote_address a n).1 ≡ n
unfolding get_remote_address
get_remote_address-known a n x e = simp (get_remote_address, e) refl

close-some :
    (n : Net) (g : ℕ)
    → n.self.sock ≡ some g
    → ((close n).1.self.connected ≡ false)
      × ((close n).1.self.sock ≡ none)
      × ((close n).1.self.remote_address ≡ n.self.remote_address)
unfolding close
close-some n g e = simp (e, and_false (not n.self.connected)) (refl, refl, refl)

-- What `connect` leaves if it gets as far as the system call.
pub record Outcome (address : Address) (worked : Bool) (s : Socket) : Type 0 where
  pub remote : s.remote_address ≡ some address
  pub connected : s.connected ≡ worked
  pub valid : is_valid s ≡ worked

-- The socket as `connect` hands it to the system call, and after a success.
abbrev attempted : Address → ℕ → Net → Net
attempted address timeout_ms n = record n {
  self = record n.self { remote_address = some address };
  calls = connecting n.self.sock address timeout_ms ∷ n.calls;
}

abbrev linked : Net → Net
linked n = record n { self = record n.self { connected = true } }

module _ (a : Answers) (address : Address) (timeout_ms : ℕ) (n : Net)
    (h : is_valid (ensure_sock a.opens n).self ≡ true)
    (f : get_family address ≡ n.self.family) where
  abbrev failed : Bool × Net
  failed = (false, (close (attempted address timeout_ms (ensure_sock a.opens n))).1)

  abbrev made : Bool × Net
  made = (
    true,
    (get_remote_address a
        (get_local_address a (linked (attempted address timeout_ms (ensure_sock a.opens n)))).1).1,
  )

  connect-eq : connect a address timeout_ms n ≡ (if not a.connects then failed else made)
  unfolding connect
  connect-eq =
      let same : (get_family address == n.self.family) ≡ true = ground arith in rw (h, same) refl

  failed_Outcome :
      (g : ℕ)
      → (ensure_sock a.opens n).self.sock ≡ some g
      → Outcome address false (close (attempted address timeout_ms (ensure_sock a.opens n))).1.self
  failed_Outcome g e =
      let (off, gone, kept) =
        close-some (attempted address timeout_ms (ensure_sock a.opens n)) g e in
      record { remote = kept; connected = off; valid = ap is_some gone }

  linked_Outcome :
      Outcome address true
        (get_remote_address a
          (get_local_address a
            (linked (attempted address timeout_ms (ensure_sock a.opens n)))).1).1.self
  linked_Outcome =
      let start : Net = linked (attempted address timeout_ms (ensure_sock a.opens n)) in
      let (remote, connected, sock) = get_local_address-keeps a start in
      let e =
        ap (λ m. m.self)
          (get_remote_address-known a (get_local_address a start).1 address remote) in
      subst (λ s. Outcome address true s) (sym e)
        (record { remote = remote; connected = connected; valid = ap is_some sock ∙ h })

  both :
      (b : Bool)
      → a.connects ≡ b
      → (r : Bool × Net) → connect a address timeout_ms n ≡ r
      → (r.0 ≡ b) × Outcome address b r.1.self
      → ((connect a address timeout_ms n).0 ≡ a.connects)
        × Outcome address a.connects (connect a address timeout_ms n).1.self
  both b e r q o =
      subst
        (λ c.
          ((connect a address timeout_ms n).0 ≡ c)
          × Outcome address c (connect a address timeout_ms n).1.self)
        (sym e) (subst (λ t. (t.0 ≡ b) × Outcome address b t.1.self) (sym q) o)

  -- With a descriptor and an address of the socket's family, `connect` returns whether the system
  -- call worked, and remembers the address; the socket is then connected and holds a descriptor if it
  -- worked, and neither if not.
  pub connect-Outcome :
      ((connect a address timeout_ms n).0 ≡ a.connects)
      × Outcome address a.connects (connect a address timeout_ms n).1.self
  connect-Outcome = elim (Option-cases (ensure_sock a.opens n).self.sock) [
    | inl e ↦ let e' : false ≡ true = sym (ap is_some e) ∙ h in cc
    | inr (g, e) ↦ elim (Bool-cases a.connects) [
      | inr fails ↦
          both false fails failed (connect-eq ∙ ap (λ c. if not c then failed else made) fails)
            (refl, failed_Outcome g e)
      | inl works ↦
          both true works made (connect-eq ∙ ap (λ c. if not c then failed else made) works)
            (refl, linked_Outcome)
    ]
  ]

-- A `connect` that failed can be tried again: `reconnect` connects to the same address.
pub reconnect-connect :
    (a : Answers) (address : Address) (timeout_ms : ℕ) (n : Net)
    → n.self.remote_address ≡ some address
    → reconnect a timeout_ms n
      ≡ connect a address timeout_ms (record n { self = record n.self { local_address = none } })
unfolding reconnect
reconnect-connect a address timeout_ms n e =
    rw (reconnect, e)
      (λ i.
        connect a address timeout_ms
          (record n { self = record n.self { local_address = none; remote_address = e i } }))
