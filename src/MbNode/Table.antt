-- ===== src/MbNode/Table.antt =====
-- What fast_lookup_init leaves in the tables.
use choose_cut.Base.{
  ℕ, zero, suc, ◌+◌, ◌-◌, ◌/◌, ◌^◌, ◌<◌, ◌≡◌, refl, ◌∙◌, ◌++◌, ap, arith, some, List, [], ◌∷◌, map,
  get_elem?, get_elem?-map, clz,
}
use choose_cut.MbNode.{Tables, count_inl_bitmap, fast_lookup_init}

-- The ones of a row: a place for each level, from the longest prefix to the empty one.
unfoldable pub row : ℕ → ℕ → ℕ
row zero bit = 0
row (suc j) bit = 2 ^ count_inl_bitmap bit j + row j (bit / 2)

-- One more than the number of bits of the prefix at a place.
unfoldable pub level : ℕ → ℕ
level pos = 64 - clz 64 (pos + 1)

abbrev count_from : ℕ → ℕ → List ℕ
count_from i zero = []
count_from i (suc n) = i ∷ count_from (i + 1) n

get_elem?-count_from : (n start i : ℕ) → i < n → get_elem? (count_from start n) i ≡ some (start + i)
get_elem?-count_from zero start i lt = absurd (omega arith)
get_elem?-count_from (suc n) start zero lt = ap some (omega arith)
get_elem?-count_from (suc n) start (suc i) lt =
    get_elem?-count_from n (start + 1) i (omega arith) ∙ ap some (omega arith)

abbrev pub tables : Tables
tables = record {
  fct = map (row 6) (count_from 0 32);
  pos2cidr = map level (count_from 0 63) ++ (0 ∷ []);
}

pub fast_lookup_init-tables : fast_lookup_init ≡ some tables
unfolding fast_lookup_init row level clz
fast_lookup_init-tables = refl

pub fct-row : (i : ℕ) → i < 32 → get_elem? tables.fct i ≡ some (row 6 i)
fct-row i lt =
    get_elem?-map (row 6) (count_from 0 32) i
    ∙ rw (get_elem?-count_from 32 0 i lt) (ap some (ap (row 6) (omega arith)))

get_elem?-append_left :
    (xs ys : List ℕ) (i v : ℕ) → get_elem? xs i ≡ some v → get_elem? (xs ++ ys) i ≡ some v
get_elem?-append_left [] ys i v e = cc
get_elem?-append_left (x ∷ xs) ys zero v e = e
get_elem?-append_left (x ∷ xs) ys (suc i) v e = get_elem?-append_left xs ys i v e

pub pos2cidr-level : (p : ℕ) → p < 63 → get_elem? tables.pos2cidr p ≡ some (level p)
pos2cidr-level p lt = get_elem?-append_left (map level (count_from 0 63)) (0 ∷ []) p (level p) (
    get_elem?-map level (count_from 0 63) p
    ∙ rw (get_elem?-count_from 63 0 p lt) (ap some (ap level (omega arith))))
