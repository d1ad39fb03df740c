-- ===== src/BytePool/Tests.antt =====
-- A slice of three bytes that was not made by the pool goes in, and one of two comes out.
use gtcp.Prelude.{arith}
use gtcp.BytePool.{Slice, empty_pool, get, put}
use gtcp.BytePool.Sizes.{AllFrom, Gets, byte_pool_lem}

abbrev three : Slice
three = record { len = 3; cap = 3; array = 3 }

byte_pool_lem_example : AllFrom 0 (put empty_pool three) × Gets 2 (get 0 (put empty_pool three) 2)
byte_pool_lem_example = byte_pool_lem empty_pool 0 2 three _ (omega arith)
