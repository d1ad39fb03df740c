-- ===== src/Options/Tests.antt =====
-- A server with odd options.
use gtcp.Prelude.{true, List, [], ◌∷◌}
use gtcp.Prelude.Int.{pos}
use gtcp.Options.{Setting, with_read_buffer_cap, with_num_event_loop, with_lock_os_thread}

abbrev settings : List Setting
settings =
    with_read_buffer_cap (pos 1500) ∷ with_num_event_loop (pos 9000) ∷ with_lock_os_thread true ∷ []
