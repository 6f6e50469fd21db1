-- ===== src/Ranges/Tests.antt =====
-- Runs of the sorting and merging of ranges, and the theorems at inputs.
use choose_cut.Base.{ℕ, ◌≡◌, refl, arith, some, List, [], ◌∷◌, leb}
use choose_cut.Base.Int.{negsuc}
use choose_cut.Ranges.{Range1d, range_compare, sort_ranges, unique_ranges}
use choose_cut.Ranges.Sort.{weight_where}
use choose_cut.Ranges.Unique.{IsRising, unique_ranges-IsRising}

abbrev one : ℕ → ℕ → Range1d
one low high = record { low = low; high = high; weight = 1 }

sort_ranges_run :
    sort_ranges (one 5 9 ∷ one 0 7 ∷ one 5 6 ∷ one 0 7 ∷ [])
    ≡ one 0 7 ∷ one 0 7 ∷ one 5 6 ∷ one 5 9 ∷ []
unfolding sort_ranges
sort_ranges_run = refl

unique_ranges_run :
    unique_ranges (one 0 7 ∷ one 0 7 ∷ one 5 6 ∷ one 5 9 ∷ [])
    ≡ some (record { low = 0; high = 7; weight = 2 } ∷ one 5 6 ∷ one 5 9 ∷ [])
unfolding unique_ranges
unique_ranges_run = refl

range_compare_run : range_compare (one 0 7) (one 0 8) ≡ negsuc 0
unfolding range_compare
range_compare_run = refl

unique_ranges-IsRising_example :
    (out : List Range1d) × (unique_ranges (one 0 7 ∷ one 0 7 ∷ one 5 6 ∷ []) ≡ some out)
    × IsRising out
    × (weight_where (λ low high. leb low 3) out ≡ 2)
unique_ranges-IsRising_example =
    unique_ranges-IsRising (one 0 7) (one 0 7 ∷ one 5 6 ∷ []) (λ low high. leb low 3) (omega arith)
      (omega arith)
