-- ===== src/Sock/Accepting.antt =====
-- The descriptors in `Socket::accept` (socket/socket.cpp).
use sylar_net_server_framewo.Common.{
  [], ◌∷◌, ℕ, ◌≡◌, refl, sym, ap, ◌∙◌, inl, inr, Bool, true, false, not, ◌&&◌, Option, none, some,
  arith, ◌==◌, Bool-cases, Option-cases, and_false,
}
use sylar_net_server_framewo.Fds.Defs.{FdCtx}
use sylar_net_server_framewo.Sock.Defs.{
  Socket, socket, tcp, opened, Answers, Net, get_local_address, get_remote_address,
}
use sylar_net_server_framewo.Sock.Steps.{init_sock, init, accept}
use sylar_net_server_framewo.Sock.States.{same_sock, opens_of, closes_of, Accounted}

-- The descriptor that is held, and the counts of every descriptor.
record Same (n n' : Net) : Type 0 where
  sock : n'.self.sock ≡ n.self.sock
  opens : (fd : ℕ) → opens_of fd n'.calls ≡ opens_of fd n.calls
  closes : (fd : ℕ) → closes_of fd n'.calls ≡ closes_of fd n.calls

Same-self : (n : Net) → Same n n
Same-self n = record { sock = refl; opens = λ fd. refl; closes = λ fd. refl }

Same-trans : (n n' n'' : Net) → Same n n' → Same n' n'' → Same n n''
Same-trans n n' n'' a b = record {
  sock = b.sock ∙ a.sock;
  opens = λ fd. b.opens fd ∙ a.opens fd;
  closes = λ fd. b.closes fd ∙ a.closes fd;
}

init_sock-Same : (n : Net) → Same n (init_sock n)
unfolding init_sock
init_sock-Same n = elim (Bool-cases (n.self.type == tcp)) [
  | inl t ↦ rw t (record { sock = refl; opens = λ fd. refl; closes = λ fd. refl })
  | inr t ↦ rw t (record { sock = refl; opens = λ fd. refl; closes = λ fd. refl })
]

get_local_address-Same : (a : Answers) (n : Net) → Same n (get_local_address a n).1
unfolding get_local_address
get_local_address-Same a n = elim (Option-cases n.self.local_address) [
  | inl e ↦ elim (Option-cases a.sockname) [
    | inl e' ↦ simp (get_local_address, e, e') (Same-self n)
    | inr (k, e') ↦
        simp (get_local_address, e, e')
          (record { sock = refl; opens = λ fd. refl; closes = λ fd. refl })
  ]
  | inr (x, e) ↦ simp (get_local_address, e) (Same-self n)
]

get_remote_address-Same : (a : Answers) (n : Net) → Same n (get_remote_address a n).1
unfolding get_remote_address
get_remote_address-Same a n = elim (Option-cases n.self.remote_address) [
  | inl e ↦ elim (Option-cases a.peername) [
    | inl e' ↦ simp (get_remote_address, e, e') (Same-self n)
    | inr (k, e') ↦
        simp (get_remote_address, e, e')
          (record { sock = refl; opens = λ fd. refl; closes = λ fd. refl })
  ]
  | inr (x, e) ↦ simp (get_remote_address, e) (Same-self n)
]

-- `init` opens and closes nothing, and holds the descriptor that it is given if it takes it.
record Initialised (fd : ℕ) (n : Net) (r : Bool × Net) : Type 0 where
  took : r.0 ≡ true → r.1.self.sock ≡ some fd
  opens : (g : ℕ) → opens_of g r.1.calls ≡ opens_of g n.calls
  closes : (g : ℕ) → closes_of g r.1.calls ≡ closes_of g n.calls

init-Initialised :
    (a : Answers) (ctx : Option FdCtx) (fd : ℕ) (n : Net) → Initialised fd n (init a ctx fd n)
unfolding init
init-Initialised a none fd n = record { took = λ h. cc; opens = λ g. refl; closes = λ g. refl }
init-Initialised a (some c) fd n = elim (Bool-cases (c.is_socket && not c.is_closed)) [
  | inr e ↦ rw e (record { took = λ h. cc; opens = λ g. refl; closes = λ g. refl })
  | inl e ↦
      let n₁ : Net = record n { self = record n.self { sock = some fd; connected = true } } in
      let n₂ = init_sock n₁ in
      let n₃ = (get_local_address a n₂).1 in
      let n₄ = (get_remote_address a n₃).1 in
      let s : Same n₁ n₄ =
        Same-trans n₁ n₂ n₄ (init_sock-Same n₁)
          (Same-trans n₂ n₃ n₄ (get_local_address-Same a n₂) (get_remote_address-Same a n₃)) in
      rw e (record { took = λ h. s.sock; opens = s.opens; closes = s.closes })
]

pub accept-Accounted :
    (others : ℕ → ℕ) (a : Answers) (accepted : Option ℕ) (ctx : Option FdCtx) (n : Net)
    → Accounted others n
    → Accounted others (accept a accepted ctx n).1
unfolding accept
accept-Accounted others a none ctx n v = v
accept-Accounted others a (some fd) ctx n v =
    let client : Net = record {
      self = socket n.self.family n.self.type n.self.protocol;
      calls = n.calls;
    } in
    let i = init-Initialised a ctx fd client in
    record { balanced = λ g. omega (arith, v.balanced g, i.opens g, i.closes g); held = v.held }

-- The socket that `accept` makes holds the descriptor that it was given.
pub accept-client :
    (a : Answers) (fd : ℕ) (ctx : Option FdCtx) (n : Net) (client : Socket)
    → (accept a (some fd) ctx n).0 ≡ some client
    → client.sock ≡ some fd
unfolding accept
accept-client a fd ctx n client h =
    let start : Net = record {
      self = socket n.self.family n.self.type n.self.protocol;
      calls = n.calls;
    } in
    let r = init a ctx fd start in
    let i = init-Initialised a ctx fd start in
    elim (Bool-cases r.0) [
      | inr off ↦ let q : none ≡ some client = rw off at h in cc
      | inl on ↦
          let q : some r.1.self ≡ some client = rw on at h in
          let q' : r.1.self ≡ client = cc in ap (λ c. c.sock) (sym q') ∙ i.took on
    ]

pub client-Accounted :
    (fd : ℕ) (client : Socket)
    → client.sock ≡ some fd
    → Accounted (λ g. 0) (record { self = client; calls = opened (some fd) ∷ [] })
client-Accounted fd client e = record {
  balanced = λ g. omega (arith, ap (λ s. same_sock s g) e);
  held =
      ap (λ s. client.connected && not (elim s [ none ↦ false | some k ↦ true ])) e
      ∙ and_false client.connected;
}
