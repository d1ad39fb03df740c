-- ===== src/Ring/View.antt =====
-- What a ring buffer holds, its representation invariant, and its lengths.
use gtcp.Prelude.{◌≢◌, ltb, ◌-◌, ℕ, ◌+◌, ◌≤◌, ◌<◌, ◌≡◌, Bool, true, false, List, arith, length}
use gtcp.Ring.{Buffer, buffered, available}
use gtcp.Ring.Window.{window, length-window}

-- The bytes that a reader will get, oldest first.
abbrev pub contents : Buffer → List ℕ
contents rb = window rb.buf rb.r (buffered rb)

-- An empty buffer has both positions at 0, and another one has them inside the slice.
abbrev pub Positions : Bool → ℕ → ℕ → ℕ → Type 0
Positions true size r w = (r ≡ 0) × (w ≡ 0)
Positions false size r w = (r < size) × (w < size)

pub record IsValid (rb : Buffer) : Type 0 where
  pub sized : length rb.buf ≡ rb.size
  pub positions : Positions rb.is_empty rb.size rb.r rb.w

module _ (rb : Buffer) (v : IsValid rb) where
  pub buffered-le : buffered rb ≤ rb.size
  unfolding buffered
  buffered-le = ground arith

  -- On a valid ring `Buffered` and `Available` make up the size.
  pub buffered-add-available : buffered rb + available rb ≡ rb.size
  unfolding buffered available
  buffered-add-available = ground arith

  pub r-le : rb.r ≤ rb.size
  r-le = ground arith

  pub length-contents : length (contents rb) ≡ buffered rb
  length-contents = ground (arith, length-window rb.buf rb.r (buffered rb), buffered-le, r-le)

  pub buffered_empty : rb.is_empty ≡ true → buffered rb ≡ 0
  unfolding buffered
  buffered_empty h = ground arith

  pub buffered_nonempty : rb.is_empty ≡ false → 0 < buffered rb
  unfolding buffered
  buffered_nonempty h = ground arith

  pub buffered_flat : ltb rb.r rb.w ≡ true → buffered rb ≡ rb.w - rb.r
  unfolding buffered
  buffered_flat h = ground arith

  pub buffered_round :
      rb.is_empty ≡ false → ltb rb.r rb.w ≡ false → buffered rb ≡ rb.size - rb.r + rb.w
  unfolding buffered
  buffered_round e h = ground arith

  -- The positions meet in a full buffer only.
  pub r-ne-w : rb.is_empty ≡ false → buffered rb < rb.size → rb.r ≢ rb.w
  unfolding buffered
  r-ne-w e h eq = ground arith
