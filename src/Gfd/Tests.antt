-- ===== src/Gfd/Tests.antt =====
-- The packed descriptor on small inputs, and its theorems at concrete ones.
use gtcp.Prelude.{arith}
use gtcp.Prelude.Int.{pos}
use gtcp.Gfd.{new_gfd, inc}
use gtcp.Gfd.RoundTrip.{Fields, new_gfd_lem}

new_gfd_lem_example :
    Fields
      (new_gfd 6 (pos 300) (pos 1) (pos 2) (pos 515)).0
      (pos 300)
      (pos 1)
      (pos 2)
      (pos 515)
      (inc 6)
new_gfd_lem_example =
    new_gfd_lem 6 300 1 2 515 (omega arith) (omega arith) (omega arith) (omega arith)
