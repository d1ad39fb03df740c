-- ===== src/Elastic/Samples.antt =====
-- Memory and rings for tests: slices of zeros, and rings of no size.
use gtcp.Prelude.{◌≡◌, refl, [], arith, replicate, length-replicate}
use gtcp.Alloc.{Alloc}
use gtcp.RingPool.{RingPool}
use gtcp.Ring
use gtcp.Ring.View

abbrev pub zeros : Alloc
zeros = record { get = λ n. replicate n 0; length-get = λ n. length-replicate n 0 }

pub nothing_in_new : Ring.View.contents (Ring.fresh 0) ≡ []
unfolding Ring.buffered
nothing_in_new = refl

-- A pool that hands out rings of no size.
abbrev pub new_rings : RingPool
new_rings = record {
  get = Ring.fresh 0;
  get-IsValid = record { sized = refl; positions = (refl, refl) };
  get_holds_nothing = nothing_in_new;
  get_size = omega arith;
}
