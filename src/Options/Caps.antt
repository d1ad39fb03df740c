-- ===== src/Options/Caps.antt =====
-- The bounds that `Server` puts on the options.
use gtcp.Prelude.{ℕ, ◌^◌, ◌≤◌, ◌<◌, ◌≡◌, ◌⊎◌, suc, true, false, max, min, if◌then◌else◌}
use gtcp.Prelude.Int.{ℤ, pos, pos_part}
use gtcp.Options.{Options, Prepared, ready, too_many_event_loop_threads}

-- The size that a buffer gets: 64 KB where none is asked for, 1024 for up to that many bytes, and
-- from there on the least power of two that is at least what is asked for.
pub data Cap : ℤ → ℤ → Type 0 where
  by_default : {asked : ℤ} → pos_part asked ≡ 0 → Cap asked (pos 65536)
  smallest : {asked : ℤ} → 0 < pos_part asked → pos_part asked ≤ 1024 → Cap asked (pos 1024)
  least :
      {asked : ℤ} (bits : ℕ)
      → 1024 < pos_part asked
      → 2 ^ bits < pos_part asked
      → pos_part asked ≤ 2 ^ suc bits
      → Cap asked (pos (2 ^ suc bits))

-- The number of event loops that is asked for, brought between one and 256.
abbrev pub between_1_and_256 : ℕ → ℕ
between_1_and_256 n = max 1 (min 256 n)

-- The options that `Server` starts with, or its error.
pub data Prepares (num_cpu : ℤ) (options : Options) : Prepared → Type 0 where
  refused :
      options.lock_os_thread ≡ true
      → 10000 < pos_part options.num_event_loop
      → Prepares num_cpu options too_many_event_loop_threads
  started :
      (read write : ℤ)
      → (options.lock_os_thread ≡ false) ⊎ (pos_part options.num_event_loop ≤ 10000)
      → Cap options.read_buffer_cap read
      → Cap options.write_buffer_cap write
      → Prepares num_cpu options (
          ready (record options {
            read_buffer_cap = read;
            write_buffer_cap = write;
            num_event_loop = pos (
                between_1_and_256
                  (pos_part (if options.multicore then num_cpu else options.num_event_loop)));
          }))
