-- ===== src/Hi/Sweep/Numbers.antt =====
-- The number of the segment that a value lies in.
use native.Mathlib.Nat.{div-lt_iff_lt-mul}
use choose_cut.Base.{
  ℕ, suc, ◌+◌, ◌-◌, ◌*◌, ◌/◌, ◌^◌, ◌≤◌, ◌<◌, ◌≡◌, arith, inl, inr, true, false, ltb, Bool-cases,
  sub32,
}

-- `segment`, of a start and a width.
abbrev pub place_of : ℕ → ℕ → ℕ → ℕ
place_of start size x = sub32 x start / size

-- The values that the sweep meets: a range behind the start, in 32 bits.
abbrev pub InWord : ℕ → ℕ → ℕ → Type 0
InWord start low high = (start ≤ low) × (low ≤ high) × (high < 2 ^ 32)

module _ (start size : ℕ) (wide : 0 < size) where
  pub place_before :
      (x k : ℕ) → start ≤ x → x < 2 ^ 32 → place_of start size x < k → x < start + k * size
  place_before x k le word lt =
      let e : sub32 x start ≡ x - start = omega arith in
      let lt' = rw e at lt in
      let d = (div-lt_iff_lt-mul {k = size} {x = x - start} {y = k} wide).0 lt' in omega (arith, d)

  pub before_place :
      (x k : ℕ) → start ≤ x → x < 2 ^ 32 → x < start + k * size → place_of start size x < k
  before_place x k le word lt =
      let e : sub32 x start ≡ x - start = omega arith in
      rw e ((div-lt_iff_lt-mul {k = size} {x = x - start} {y = k} wide).1 (omega arith))

  -- The test of the sweep, with `curr` at the end of segment `k`.
  pub test_place :
      (x k curr : ℕ)
      → start ≤ x
      → x < 2 ^ 32
      → curr ≡ start + suc k * size
      → (ltb x curr ≡ true → place_of start size x ≤ k)
        × (ltb x curr ≡ false → k < place_of start size x)
  test_place x k curr le word at = (
    λ lt.
        (let p = before_place x (suc k) le word (let at' = at in ground (arith, at')) in
          omega (arith, p)),
    λ ge. elim (Bool-cases (ltb (place_of start size x) (suc k))) [
      | inl behind ↦
          (let p = place_before x (suc k) le word (ground (arith, behind)) in
            absurd (ground (arith, p, ge)))
      | inr ahead ↦ ground (arith, ahead)
    ],
  )

  -- The places are in the order of the values.
  pub place_mono :
      (x y : ℕ) → start ≤ x → x ≤ y → y < 2 ^ 32 → place_of start size x ≤ place_of start size y
  place_mono x y le ordered word =
      let q = place_of start size y in
      let p = place_before y (suc q) (omega arith) word (omega arith) in
      let r = before_place x (suc q) le (omega arith) (omega (arith, p)) in omega (arith, r)
