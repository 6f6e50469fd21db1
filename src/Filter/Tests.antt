-- ===== src/Filter/Tests.antt =====
-- Runs of the filter reading, and its theorem at an input.
use choose_cut.Base.{ℕ, ◌≡◌, refl, arith, none, some, if◌then◌else◌, ◌==◌}
use choose_cut.Filter.{read_ip_range}
use choose_cut.Filter.Ranges.{address, block_of, read_ip_range-block_of}

-- 10.1.2.200
abbrev octets : ℕ → ℕ
octets i = if i == 0 then 10 else (if i == 1 then 1 else (if i == 2 then 2 else 200))

-- 10.1.2.200/26 goes from 10.1.2.192 to 10.1.2.255.
slash_26 : read_ip_range octets 26 ≡ some (record { low = 167838400; high = 167838463 })
unfolding read_ip_range
slash_26 = refl

slash_0 : read_ip_range octets 0 ≡ some (record { low = 0; high = 4294967295 })
unfolding read_ip_range
slash_0 = refl

slash_33 : read_ip_range octets 33 ≡ none
unfolding read_ip_range
slash_33 = refl

read_ip_range-block_of_example : read_ip_range octets 26 ≡ some (block_of (address octets) 6)
read_ip_range-block_of_example =
    read_ip_range-block_of octets 26 (omega arith, omega arith, omega arith, omega arith)
      (omega arith)
