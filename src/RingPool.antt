-- ===== src/RingPool.antt =====
-- What pkg/buffer/elastic asks of pkg/pool/ringbuffer: `Get` hands out a ring that holds nothing.
pub mod Pool
pub mod Calibrate
pub mod Kept
mod Tests
use gtcp.Prelude.{◌^◌, ◌≤◌, ◌≡◌, []}
use gtcp.Ring.{Buffer}
use gtcp.Ring.View.{contents, IsValid}

pub record RingPool : Type 0 where
  pub get : Buffer
  pub get-IsValid : IsValid get
  pub get_holds_nothing : contents get ≡ []
  pub get_size : get.size ≤ 2 ^ 61
