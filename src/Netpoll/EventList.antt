-- ===== src/Netpoll/EventList.antt =====
-- The list of events grows and shrinks with the number of events of a wait, within bounds.
use gtcp.Prelude.{ℕ, ◌*◌, ◌/◌, ◌≤◌, arith, ltb, leb, ◌==◌, if◌then◌else◌}

abbrev pub init_poll_events_cap : ℕ
init_poll_events_cap = 128

abbrev pub max_poll_events_cap : ℕ
max_poll_events_cap = 1024

abbrev pub min_poll_events_cap : ℕ
min_poll_events_cap = 32

-- The size of the list and of its slice, which are the same number.
unfoldable pub expand : ℕ → ℕ
expand size = let new_size = size * 2 in if leb new_size max_poll_events_cap then new_size else size

unfoldable pub shrink : ℕ → ℕ
shrink size = let new_size = size / 2 in if leb min_poll_events_cap new_size then new_size else size

-- What `Polling` does to the list after a wait with `n` events.
unfoldable pub resized : ℕ → ℕ → ℕ
unfolding expand shrink
resized size n = if n == size then expand size else if ltb n (size / 2) then shrink size else size

-- After a wait with any number of events a list of events of between 32 and 1024 entries is
-- again of such a size.
pub resized_bounds :
    (size n : ℕ)
    → min_poll_events_cap ≤ size
    → size ≤ max_poll_events_cap
    → (min_poll_events_cap ≤ resized size n) × (resized size n ≤ max_poll_events_cap)
unfolding resized
resized_bounds size n low high = ground arith
