-- ===== src/ConnMatrix.antt =====
-- conn_matrix.go: the connections by their descriptors. The map is a list of its entries; its values, which
-- are pointers to connections in the source, are of any type here. A method here runs with no
-- other beside it. In the source that is so for `addConn` and `delConn`, which hold the write
-- lock; `iterate` deletes under the read lock, which other readers may hold too.
pub mod Lookup
use gtcp.Prelude.{
  ℕ, Bool, true, false, Option, none, some, List, [], ◌∷◌, ◌==◌, if◌then◌else◌, length,
}
use gtcp.Prelude.Int.{ℤ, pos, negsuc}

abbrev pub same_fd : ℤ → ℤ → Bool
same_fd (pos a) (pos b) = a == b
same_fd (negsuc a) (negsuc b) = a == b
same_fd a b = false

abbrev pub ConnMatrix : Type 0 → Type 0
ConnMatrix A = List (ℤ × A)

module _ {A : Type 0} where
  abbrev pub init : ConnMatrix A
  init = []

  -- nil where there is none.
  unfoldable pub get_conn : ConnMatrix A → ℤ → Option A
  get_conn [] fd = none
  get_conn ((k, c) ∷ cm) fd = let rest = get_conn cm fd in if same_fd k fd then some c else rest

  unfoldable pub add_conn : ConnMatrix A → ℤ → A → ConnMatrix A
  add_conn [] fd c = (fd, c) ∷ []
  add_conn ((k, c') ∷ cm) fd c =
      let rest = add_conn cm fd c in if same_fd k fd then (k, c) ∷ cm else (k, c') ∷ rest

  unfoldable pub del_conn : ConnMatrix A → ℤ → ConnMatrix A
  del_conn [] fd = []
  del_conn ((k, c) ∷ cm) fd =
      let rest = del_conn cm fd in if same_fd k fd then cm else (k, c) ∷ rest

  unfoldable pub load_count : ConnMatrix A → ℕ
  load_count cm = length cm

  -- Entries that are not nil and for which `f` is false go.
  unfoldable pub iterate : (A → Bool) → (A → Bool) → ConnMatrix A → ConnMatrix A
  iterate is_nil f [] = []
  iterate is_nil f ((k, c) ∷ cm) =
      let rest = iterate is_nil f cm in
      if is_nil c then (k, c) ∷ rest else if f c then (k, c) ∷ rest else rest
