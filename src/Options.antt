-- ===== src/Options.antt =====
-- options.go: the options and the functions that set them. A duration is a ℤ of nanoseconds, and the
-- type `Option` of such functions is called Setting here.
pub mod Caps
mod Tests
use gtcp.Prelude.{ℕ, Bool, true, false, ◌&&◌, Option, none, some, List, [], ◌∷◌, if◌then◌else◌, ◌^◌}
use gtcp.Prelude.Int.{ℤ, pos, pos_part, ltb_ℤ, leb_ℤ}
use gtcp.PowerOfTwo.{ceil_to_power_of_two}
use gtcp.Gfd.{event_loop_index_max}

pub data TcpSocketOpt : Type 0 where
  tcp_no_delay tcp_delay : TcpSocketOpt

pub record Options : Type 0 where
  pub multicore : Bool
  pub num_event_loop : ℤ
  pub reuse_addr : Bool
  pub reuse_port : Bool
  pub multicast_interface_index : ℤ
  pub read_buffer_cap : ℤ
  pub write_buffer_cap : ℤ
  pub lock_os_thread : Bool
  pub ticker : Bool
  pub tcp_keep_alive : ℤ
  pub tcp_delay_option : TcpSocketOpt
  pub socket_recv_buffer : ℤ
  pub socket_send_buffer : ℤ

-- `new(Options)`
abbrev pub new_options : Options
new_options = record {
  multicore = false;
  num_event_loop = pos 0;
  reuse_addr = false;
  reuse_port = false;
  multicast_interface_index = pos 0;
  read_buffer_cap = pos 0;
  write_buffer_cap = pos 0;
  lock_os_thread = false;
  ticker = false;
  tcp_keep_alive = pos 0;
  tcp_delay_option = tcp_no_delay;
  socket_recv_buffer = pos 0;
  socket_send_buffer = pos 0;
}

abbrev pub Setting : Type 0
Setting = Options → Options

abbrev pub apply_all : List Setting → Options → Options
apply_all [] opts = opts
apply_all (option ∷ options) opts = apply_all options (option opts)

unfoldable pub load_options : List Setting → Options
load_options options = apply_all options new_options

abbrev pub with_options : Options → Setting
with_options options opts = options

abbrev pub with_multicore : Bool → Setting
with_multicore multicore opts = record opts { multicore = multicore }

abbrev pub with_lock_os_thread : Bool → Setting
with_lock_os_thread lock opts = record opts { lock_os_thread = lock }

abbrev pub with_read_buffer_cap : ℤ → Setting
with_read_buffer_cap cap opts = record opts { read_buffer_cap = cap }

abbrev pub with_write_buffer_cap : ℤ → Setting
with_write_buffer_cap cap opts = record opts { write_buffer_cap = cap }

abbrev pub with_num_event_loop : ℤ → Setting
with_num_event_loop num opts = record opts { num_event_loop = num }

abbrev pub with_reuse_port : Bool → Setting
with_reuse_port reuse opts = record opts { reuse_port = reuse }

abbrev pub with_reuse_addr : Bool → Setting
with_reuse_addr reuse opts = record opts { reuse_addr = reuse }

abbrev pub with_tcp_keep_alive : ℤ → Setting
with_tcp_keep_alive duration opts = record opts { tcp_keep_alive = duration }

abbrev pub with_tcp_no_delay : TcpSocketOpt → Setting
with_tcp_no_delay delay opts = record opts { tcp_delay_option = delay }

abbrev pub with_socket_recv_buffer : ℤ → Setting
with_socket_recv_buffer size opts = record opts { socket_recv_buffer = size }

abbrev pub with_socket_send_buffer : ℤ → Setting
with_socket_send_buffer size opts = record opts { socket_send_buffer = size }

abbrev pub with_ticker : Bool → Setting
with_ticker ticker opts = record opts { ticker = ticker }

abbrev pub with_multicast_interface_index : ℤ → Setting
with_multicast_interface_index idx opts = record opts { multicast_interface_index = idx }

abbrev pub max_stream_buffer_cap : ℤ
max_stream_buffer_cap = pos 65536

-- The size of a buffer in `Server`; `none` where `CeilToPowerOfTwo` finds no power of two.
unfoldable pub buffer_cap : ℤ → Option ℤ
buffer_cap cap =
    if leb_ℤ cap (pos 0)
    then some max_stream_buffer_cap
    else if leb_ℤ cap (pos 1024)
    then some (pos 1024)
    else elim (ceil_to_power_of_two cap) [ none ↦ none | some n ↦ some (pos n) ]

-- The number of event loops in `Server`.
unfoldable pub event_loops : Bool → ℤ → ℤ → ℤ
event_loops multicore num_cpu asked =
    let n = if multicore then num_cpu else asked in
    let m = if ltb_ℤ event_loop_index_max n then event_loop_index_max else n in
    if leb_ℤ m (pos 0) then pos 1 else m

-- What `Server` makes of the options, before it starts.
pub data Prepared : Type 0 where
  too_many_event_loop_threads panics : Prepared
  ready : Options → Prepared

unfoldable pub prepare : ℤ → List Setting → Prepared
prepare num_cpu settings =
    let options = load_options settings in
    if options.lock_os_thread && ltb_ℤ (pos 10000) options.num_event_loop
    then too_many_event_loop_threads
    else elim (buffer_cap options.read_buffer_cap) [
      | none ↦ panics
      | some rbc ↦ elim (buffer_cap options.write_buffer_cap) [
        | none ↦ panics
        | some wbc ↦ ready (record options {
          read_buffer_cap = rbc;
          write_buffer_cap = wbc;
          num_event_loop = event_loops options.multicore num_cpu options.num_event_loop;
        })
      ]
    ]
