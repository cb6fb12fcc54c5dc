-- ===== src/Fds/Slots.antt =====
-- One context per descriptor: `get` and `del` of `FdManager` (socket/fdManager.cpp).
use sylar_net_server_framewo.Common.{
  Option-cases, ℕ, zero, suc, ◌-◌, ◌*◌, ◌/◌, ◌≤◌, ◌<◌, ◌≡◌, refl, ap, ◌∙◌, sym, subst, ◌⊎◌, inl,
  inr, Bool, true, false, Option, none, some, List, [], ◌∷◌, ◌++◌, arith, tests, leb, ◌==◌,
  if◌then◌else◌, length, get_elem?, set, replicate, Bool-cases, length-set, length-append,
  length-replicate, get_elem?-set_self,
}
use sylar_net_server_framewo.Common.Checked.{ok, undefined}
use sylar_net_server_framewo.Common.Int.{pos, negsuc}
use sylar_net_server_framewo.Fds.Defs.{
  FdCtx, Kernel, FdManager, fd_ctx, init, resize, create, get, del,
}

-- The pointer in a slot; a slot past the end holds none.
abbrev pub slot : List (Option ℕ) → ℕ → Option ℕ
slot [] i = none
slot (o ∷ ds) zero = o
slot (o ∷ ds) (suc i) = slot ds i

-- A slot's pointer is valid, and points to the context of the slot's descriptor.
pub record IsValid (m : FdManager) : Type 0 where
  pub big : 2 ≤ length m.datas
  pub owned :
      (i ptr : ℕ)
      → slot m.datas i ≡ some ptr
      → (c : FdCtx) × (get_elem? m.heap ptr ≡ some c) × (c.fd ≡ i)

pub slot-get :
    (ds : List (Option ℕ)) (i : ℕ)
    → (get_elem? ds i ≡ none) × (slot ds i ≡ none) × (length ds ≤ i)
      ⊎ (get_elem? ds i ≡ some (slot ds i)) × (i < length ds)
slot-get [] i = inl (refl, refl, omega arith)
slot-get (o ∷ ds) zero = inr (refl, omega arith)
slot-get (o ∷ ds) (suc i) = elim (slot-get ds i) [
  | inl (a, b, c) ↦ inl (a, b, omega arith)
  | inr (a, b) ↦ inr (a, omega arith)
]

slot-set :
    (ds : List (Option ℕ)) (i j : ℕ) (o : Option ℕ)
    → i < length ds
    → slot (set ds i o) j ≡ (if i == j then o else slot ds j)
slot-set [] i j o h = absurd (omega arith)
slot-set (x ∷ ds) zero zero o h = refl
slot-set (x ∷ ds) zero (suc j) o h = ground arith
slot-set (x ∷ ds) (suc i) zero o h = ground arith
slot-set (x ∷ ds) (suc i) (suc j) o h = ground (arith, slot-set ds i j o (omega arith))

slot-replicate : (n i : ℕ) → slot (replicate n none) i ≡ none
slot-replicate zero i = refl
slot-replicate (suc n) zero = refl
slot-replicate (suc n) (suc i) = slot-replicate n i

slot-resize : (ds : List (Option ℕ)) (n i : ℕ) → slot (ds ++ replicate n none) i ≡ slot ds i
slot-resize [] n i = slot-replicate n i
slot-resize (o ∷ ds) n zero = refl
slot-resize (o ∷ ds) n (suc i) = slot-resize ds n i

get-append_left :
    (xs : List FdCtx) (c c' : FdCtx) (i : ℕ)
    → get_elem? xs i ≡ some c
    → get_elem? (xs ++ c' ∷ []) i ≡ some c
get-append_left [] c c' i h = cc
get-append_left (x ∷ xs) c c' zero h = h
get-append_left (x ∷ xs) c c' (suc i) h = get-append_left xs c c' i h

get-append_last : (xs : List FdCtx) (c : FdCtx) → get_elem? (xs ++ c ∷ []) (length xs) ≡ some c
get-append_last [] c = refl
get-append_last (x ∷ xs) c = get-append_last xs c

-- `get` found or made the context of `fd` at `ptr`.
pub record Found (fd ptr : ℕ) (m m' : FdManager) : Type 0 where
  pub valid : IsValid m'
  pub here : slot m'.datas fd ≡ some ptr
  pub slots : (g : ℕ) → slot m'.datas g ≡ (if fd == g then some ptr else slot m.datas g)
  pub kept : (added : List FdCtx) × (m'.heap ≡ m.heap ++ added)
  pub old : (first : ℕ) → slot m.datas fd ≡ some first → (ptr ≡ first) × (m' ≡ m)
  pub new : slot m.datas fd ≡ none → ptr ≡ length m.heap

append_nil : (xs : List FdCtx) → xs ++ [] ≡ xs
append_nil [] = refl
append_nil (x ∷ xs) = ap (◌∷◌ x) (append_nil xs)

fd_ctx-fd : (k : Kernel) (fd : ℕ) → (fd_ctx k fd).0.fd ≡ fd
unfolding fd_ctx init
fd_ctx-fd k fd = refl

-- The vector that `create` writes to.
abbrev grown : ℕ → List (Option ℕ) → List (Option ℕ)
grown fd ds = if leb (length ds) fd then resize (fd * 3 / 2) ds else ds

length-grown : (fd : ℕ) (ds : List (Option ℕ)) → 2 ≤ length ds → fd < length (grown fd ds)
length-grown fd ds big = elim (Bool-cases (leb (length ds) fd)) [
  | inl short ↦ rw short (
      omega (
        tests,
        length-append ds (replicate (fd * 3 / 2 - length ds) none),
        length-replicate {A = Option ℕ} (fd * 3 / 2 - length ds) none,
      ))
  | inr long ↦ rw long (omega tests)
]

length-grown_le : (fd : ℕ) (ds : List (Option ℕ)) → length ds ≤ length (grown fd ds)
length-grown_le fd ds = elim (Bool-cases (leb (length ds) fd)) [
  | inl short ↦ rw short (omega (tests, length-append ds (replicate (fd * 3 / 2 - length ds) none)))
  | inr long ↦ rw long (omega tests)
]

slot-grown : (fd i : ℕ) (ds : List (Option ℕ)) → slot (grown fd ds) i ≡ slot ds i
slot-grown fd i ds = elim (Bool-cases (leb (length ds) fd)) [
  | inl short ↦ rw short (slot-resize ds (fd * 3 / 2 - length ds) i)
  | inr long ↦ rw long refl
]

module _ (k : Kernel) (fd : ℕ) (m : FdManager) (v : IsValid m) where
  created : FdManager
  created = record {
    heap = m.heap ++ (fd_ctx k fd).0 ∷ [];
    datas = set (grown fd m.datas) fd (some (length m.heap));
    set_nonblock = if (fd_ctx k fd).1 then fd ∷ m.set_nonblock else m.set_nonblock;
  }

  create-eq : create k fd m ≡ ok (some (length m.heap), created)
  unfolding create created
  create-eq =
      let inside : leb (length (grown fd m.datas)) fd ≡ false =
        ground (arith, length-grown fd m.datas v.big) in
      rw inside refl

  created-slot :
      (g : ℕ) → slot created.datas g ≡ (if fd == g then some (length m.heap) else slot m.datas g)
  unfolding created
  created-slot g =
      slot-set (grown fd m.datas) fd g (some (length m.heap)) (length-grown fd m.datas v.big)
      ∙ ap (λ o. if fd == g then some (length m.heap) else o) (slot-grown fd g m.datas)

  created-Found : slot m.datas fd ≡ none → Found fd (length m.heap) m created
  created-Found empty = record {
    valid = record {
      big =
          unfold created in
          omega (
            arith,
            v.big,
            length-grown_le fd m.datas,
            length-set (grown fd m.datas) fd (some (length m.heap)),
          );
      owned = λ i ptr h. elim (Bool-cases (fd == i)) [
        | inl same ↦
            let e : fd ≡ i = ground arith in
            let p : length m.heap ≡ ptr = let a = created-slot i in ground arith in
            (
              (fd_ctx k fd).0,
              unfold created in
                  subst (λ q. get_elem? (m.heap ++ (fd_ctx k fd).0 ∷ []) q ≡ some (fd_ctx k fd).0) p
                    (get-append_last m.heap (fd_ctx k fd).0),
              fd_ctx-fd k fd ∙ e,
            )
        | inr other ↦
            let o : slot m.datas i ≡ some ptr = let a = created-slot i in ground arith in
            let (c, f, g) = v.owned i ptr o in
            (c, unfold created in get-append_left m.heap c (fd_ctx k fd).0 ptr f, g)
      ];
    };
    here = let a = created-slot fd in ground arith;
    slots = created-slot;
    kept = ((fd_ctx k fd).0 ∷ [], unfold created in refl);
    old = λ first full. cc;
    new = λ e. refl;
  }

  -- `get` with `auto_create` always answers a context. Where the slot of the descriptor holds one it is
  -- that one, and nothing changes; where it holds none it is a new one, which goes into the slot, and no
  -- other slot and no old context changes.
  pub get-Found :
      (ptr : ℕ) × (m' : FdManager) × (get k (pos fd) true m ≡ ok (some ptr, m')) × Found fd ptr m m'
  unfolding get
  get-Found = elim (slot-get m.datas fd) [
    | inl (none_here, empty, _) ↦
        (length m.heap, created, rw (get, none_here) create-eq, created-Found empty)
    | inr (here, _) ↦ elim (Option-cases (slot m.datas fd)) [
      | inl empty ↦ (length m.heap, created, rw (get, here, empty) create-eq, created-Found empty)
      | inr (ptr, full) ↦ (
        ptr,
        m,
        rw (get, here, full) refl,
        record {
          valid = v;
          here = full;
          slots = λ g. elim (Bool-cases (fd == g)) [
            | inl e ↦ let x : fd ≡ g = ground arith in rw e (ap (slot m.datas) (sym x) ∙ full)
            | inr n ↦ rw n refl
          ];
          kept = ([], sym (append_nil m.heap));
          old = λ first e. (let q : some ptr ≡ some first = sym full ∙ e in cc, refl);
          new = λ e. let q : some ptr ≡ none = sym full ∙ e in cc;
        },
      )
    ]
  ]

  -- A second `get`, with or without `auto_create`, answers the pointer in the slot and changes
  -- nothing.
  pub get_again :
      (auto_create : Bool) (ptr : ℕ)
      → slot m.datas fd ≡ some ptr
      → get k (pos fd) auto_create m ≡ ok (some ptr, m)
  unfolding get
  get_again auto_create ptr h = elim (slot-get m.datas fd) [
    | inl (_, e, _) ↦ cc
    | inr (here, _) ↦ rw (get, here, h) refl
  ]

  -- After `del` a `get` without `auto_create` answers the null pointer; the other slots and all the
  -- contexts stay, for those that still hold a pointer.
  pub del-Gone :
      (m' : FdManager) × (del (pos fd) m ≡ ok m')
      × (get k (pos fd) false m' ≡ ok (none, m'))
      × ((g : ℕ) → slot m'.datas g ≡ (if fd == g then none else slot m.datas g))
      × (m'.heap ≡ m.heap)
      × IsValid m'
  unfolding del get
  del-Gone = elim (slot-get m.datas fd) [
    | inl (a, b, out) ↦
        let past : leb (length m.datas) fd ≡ true = ground arith in
        (
          m,
          rw past refl,
          rw (get, a) refl,
          (λ g. elim (Bool-cases (fd == g)) [
            | inl e ↦ let x : fd ≡ g = ground arith in rw e (ap (slot m.datas) (sym x) ∙ b)
            | inr n ↦ rw n refl
          ]),
          refl,
          v,
        )
    | inr (a, inside) ↦
        let past : leb (length m.datas) fd ≡ false = ground arith in
        (
          record m { datas = set m.datas fd none },
          rw past refl,
          rw (get, get_elem?-set_self m.datas fd none inside) refl,
          (λ g. slot-set m.datas fd g none inside),
          refl,
          record {
            big = omega (arith, v.big, length-set m.datas fd none);
            owned = λ i ptr h.
                let e = slot-set m.datas fd i none inside in
                v.owned i ptr
                  (elim (Bool-cases (fd == i)) [ inl s ↦ ground arith | inr o ↦ ground arith ]);
          },
        )
  ]

-- A negative descriptor: -1 answers the null pointer from `get`, and every other call with a negative
-- descriptor indexes the vector out of bounds.
pub get_negative :
    (k : Kernel) (n : ℕ) (auto_create : Bool) (m : FdManager)
    → (get k (negsuc n) auto_create m ≡ (if n == 0 then ok (none, m) else undefined))
      × (del (negsuc n) m ≡ undefined)
unfolding get del
get_negative k zero auto_create m = (refl, refl)
get_negative k (suc n) auto_create m = (ground arith, refl)
