-- ===== src/Addr/HostPort.antt =====
-- The host and the port that `Address::Lookup` takes out of a text, the ones that `print` writes among
-- them (socket/address.cpp).
use sylar_net_server_framewo.Common.{
  ℕ, ◌≡◌, refl, true, false, none, some, List, [], ◌∷◌, ◌++◌, arith, ◌==◌, All,
}
use sylar_net_server_framewo.Addr.Text.{colon_char, bracket_open, bracket_close}
use sylar_net_server_framewo.Addr.Lookup.{split_at, split_host}

-- A text without the character.
abbrev pub Free : ℕ → List ℕ → Type 0
Free c s = All (λ x. (x == c) ≡ false) s

pub split_at-absent : (c : ℕ) (s : List ℕ) → Free c s → split_at c s ≡ none
unfolding split_at
split_at-absent c [] h = refl
split_at-absent c (x ∷ s) h = rw (h.0, split_at-absent c s h.1) refl

pub split_at-first : (c : ℕ) (s t : List ℕ) → Free c s → split_at c (s ++ c ∷ t) ≡ some (s, t)
unfolding split_at
split_at-first c [] t h = let e : (c == c) ≡ true = ground arith in rw e refl
split_at-first c (x ∷ s) t h = rw (h.0, split_at-first c s t h.1) refl

-- `node:service`, where the node starts with no bracket and has no colon.
pub split_host-port :
    (c : ℕ) (node service : List ℕ)
    → (c == bracket_open) ≡ false
    → Free colon_char (c ∷ node)
    → split_host (c ∷ node ++ colon_char ∷ service) ≡ (c ∷ node, some service)
unfolding split_host
split_host-port c node service b h = rw (b, split_at-first colon_char (c ∷ node) service h) refl

-- `[node]:service`, where the node has no closing bracket.
pub split_host-bracketed :
    (c : ℕ) (node service : List ℕ)
    → Free bracket_close (c ∷ node)
    → split_host (bracket_open ∷ (c ∷ node) ++ (bracket_close ∷ colon_char ∷ service))
      ≡ (c ∷ node, some service)
unfolding split_host
split_host-bracketed c node service h =
    rw (split_at-first bracket_close (c ∷ node) (colon_char ∷ service) h) refl
