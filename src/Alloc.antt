-- ===== src/Alloc.antt =====
-- What pkg/buffer/ring, pkg/buffer/linkedlist ask of pkg/pool/byteslice: `Get(n)` returns a slice of
-- length n whose old contents are unknown.
use gtcp.Prelude.{ℕ, ◌≡◌, List, length}

pub record Alloc : Type 0 where
  pub get : ℕ → List ℕ
  pub length-get : (n : ℕ) → length (get n) ≡ n
