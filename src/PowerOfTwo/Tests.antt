-- ===== src/PowerOfTwo/Tests.antt =====
-- internal/math/math.go on small inputs, and the theorems at concrete ones.
use gtcp.Prelude.{◌+◌, ◌-◌, ◌^◌, ◌≡◌, refl, true, none, some}
use gtcp.Prelude.Int.{pos, negsuc}
use gtcp.PowerOfTwo.{ceil_to_power_of_two, floor_to_power_of_two, is_power_of_two}

ceil_runs :
    (ceil_to_power_of_two (pos 1000) ≡ some 1024)
    × (ceil_to_power_of_two (pos 64) ≡ some 64)
    × (ceil_to_power_of_two (negsuc 4) ≡ some 2)
    × (ceil_to_power_of_two (pos (2 ^ 62 + 1)) ≡ none)
unfolding ceil_to_power_of_two
ceil_runs = (refl, refl, refl, refl)

-- There is no `n |= n >> 32`: above 2 ^ 32 the result need not be a power of two.
ceil_large : ceil_to_power_of_two (pos (2 ^ 40 + 1)) ≡ some (2 ^ 41 - 2 ^ 9 + 1)
unfolding ceil_to_power_of_two
ceil_large = refl

-- Zero passes the test.
zero_passes : is_power_of_two (pos 0) ≡ true
unfolding is_power_of_two
zero_passes = refl

floor_runs : floor_to_power_of_two (pos 1000) ≡ pos 512
unfolding floor_to_power_of_two
floor_runs = refl
