-- ===== src/Base/Visit.antt =====
-- A loop over the ones of a word, from the lowest on: it marks in a mask what it has visited.
use Prim.Native.Nat.{
  ℕ, zero, suc, ◌+◌, ◌-◌, ◌*◌, ◌/◌, ◌%◌, ◌^◌, ◌<◌, max, bit_and, bit_or, bit_xor, differ,
}
use mathlib.Core.Path.{◌≡◌, refl, sym, ◌∙◌, ap}
use mathlib.Core.Logic.{inl, inr}
use mathlib.Core.Bool.{true, false}
use mathlib.Core.Option
use mathlib.Core.Option.{Option, none, some}
use mathlib.Core.List.{List, [], ◌∷◌, map}
use native.Mathlib.Omega.{arith}
use choose_cut.Base.Tests.{◌==◌, ==_iff, if◌then◌else◌, Bool-cases, ◌>>=◌}
use choose_cut.Base.Word.{popcount, ctz}
use choose_cut.Base.Pow.{pow_pos, pow-suc_two}
use choose_cut.Base.Bits.{bit_or_digit, bit_xor_digit, bit_and_mask, mod_double, popcount-zero}

-- `while(bits ^ mask) { pos = ctz(bits ^ mask); …; mask |= 1 << pos; }`: the values of `pos`. It has fuel;
-- `none` means that it ran out.
unfoldable pub visit_bits : ℕ → ℕ → ℕ → ℕ → Option (List ℕ)
visit_bits width zero bits mask = none
visit_bits width (suc fuel) bits mask =
    let pos = ctz width (bit_xor bits mask) in
    let rest = visit_bits width fuel bits (bit_or mask (2 ^ pos)) in
    elim (bit_xor bits mask == 0) [
      | true ↦ some []
      | false ↦ rest >>= λ others. some (pos ∷ others)
    ]

-- The places of the ones, in ascending order.
unfoldable pub ones : ℕ → ℕ → List ℕ
ones zero n = []
ones (suc w) n =
    let rest = map (λ (i : ℕ). suc i) (ones w (n / 2)) in if n % 2 == 1 then 0 ∷ rest else rest

-- The numbers below one.
unfoldable pub upto : ℕ → List ℕ
upto zero = []
upto (suc k) = 0 ∷ map (λ (i : ℕ). suc i) (upto k)

visit_stop : (w fuel n m : ℕ) → bit_xor n m ≡ 0 → visit_bits w (suc fuel) n m ≡ some []
unfolding visit_bits
visit_stop w fuel n m e =
    let stop : (bit_xor n m == 0) ≡ true = (==_iff (bit_xor n m) 0).1 e in
    rw (stop, visit_bits) refl

visit_next :
    (w fuel n m : ℕ)
    → 0 < bit_xor n m
    → visit_bits w (suc fuel) n m ≡ (
        visit_bits w fuel n (bit_or m (2 ^ ctz w (bit_xor n m))) >>= λ others.
        some (ctz w (bit_xor n m) ∷ others))
unfolding visit_bits
visit_next w fuel n m pos =
    let more : (bit_xor n m == 0) ≡ false = ground arith in rw (more, visit_bits) refl

differ_same : (d : ℕ) → differ d d ≡ 0
differ_same zero = refl
differ_same (suc d) = differ_same d

ctz-double : (w x : ℕ) → ctz (suc w) (x * 2) ≡ suc (ctz w x)
unfolding ctz
ctz-double w x =
    let even : (x * 2 % 2 == 1) ≡ false = ground arith in
    let half : x * 2 / 2 ≡ x = omega arith in rw (even, half) refl

abbrev up : List ℕ → List ℕ
up places = map (λ (i : ℕ). suc i) places

up_bind :
    (p : ℕ) (r : Option (List ℕ))
    → (Option.map up r >>= λ others. some (suc p ∷ others))
      ≡ Option.map up (r >>= λ others. some (p ∷ others))
up_bind p none = refl
up_bind p (some places) = refl

ctz-odd : (w x : ℕ) → x % 2 ≡ 1 → ctz (suc w) x ≡ 0
unfolding ctz
ctz-odd w x e = rw e refl

-- Where the lowest digits are the same, the loop goes over the others.
visit_shift :
    (w fuel n m : ℕ)
    → m % 2 ≡ n % 2
    → visit_bits (suc w) fuel n m ≡ Option.map up (visit_bits w fuel (n / 2) (m / 2))
unfolding visit_bits
visit_shift w zero n m same = refl
visit_shift w (suc fuel) n m same =
    let x = bit_xor (n / 2) (m / 2) in
    let double : bit_xor n m ≡ x * 2 =
      bit_xor_digit n m ∙ (rw same (omega (arith, differ_same (n % 2)))) in
    elim (Bool-cases (x == 0)) [
      | inl none_left ↦
          let zero_x = (==_iff x 0).0 none_left in
          visit_stop (suc w) fuel n m (omega (arith, double, zero_x))
          ∙ ap (Option.map up) (sym (visit_stop w fuel (n / 2) (m / 2) zero_x))
      | inr more ↦
          let some_x : 0 < x = ground arith in
          let pos : ctz (suc w) (bit_xor n m) ≡ suc (ctz w x) =
            ap (ctz (suc w)) double ∙ ctz-double w x in
          let p = ctz w x in
          let mask = bit_or m (2 ^ suc p) in
          let power_half : 2 ^ suc p / 2 ≡ 2 ^ p = omega (arith, pow-suc_two p) in
          let power_even : 2 ^ suc p % 2 ≡ 0 = omega (arith, pow-suc_two p) in
          let digits : mask ≡ bit_or (m / 2) (2 ^ p) * 2 + max (m % 2) 0 =
            bit_or_digit m (2 ^ suc p) ∙ rw (power_half, power_even) refl in
          let half : mask / 2 ≡ bit_or (m / 2) (2 ^ p) = omega (arith, digits) in
          let low : mask % 2 ≡ n % 2 = omega (arith, digits, same) in
          visit_next (suc w) fuel n m (omega (arith, double))
          ∙ ap
              (λ (q : ℕ).
                visit_bits (suc w) fuel n (bit_or m (2 ^ q)) >>= λ others. some (q ∷ others))
              pos
          ∙ ap (λ (r : Option (List ℕ)). r >>= λ others. some (suc p ∷ others))
              (visit_shift w fuel n mask low
                ∙ ap (λ (t : ℕ). Option.map up (visit_bits w fuel (n / 2) t)) half)
          ∙ up_bind p (visit_bits w fuel (n / 2) (bit_or (m / 2) (2 ^ p)))
          ∙ ap (Option.map up) (sym (visit_next w fuel (n / 2) (m / 2) some_x))
    ]

-- The loop visits the ones of the word, each once and in ascending order.
pub visit_bits-ones :
    (w fuel n : ℕ) → n < 2 ^ w → popcount w n < fuel → visit_bits w fuel n 0 ≡ some (ones w n)
unfolding ones popcount
visit_bits-ones w zero n word enough = absurd (omega arith)
visit_bits-ones zero (suc fuel) n word enough =
    let e : n ≡ 0 = omega arith in rw e (visit_stop 0 fuel 0 0 refl)
visit_bits-ones (suc w) (suc fuel) n word enough = elim (Bool-cases (n % 2 == 1)) [
  | inr even ↦
      let zero_low : n % 2 ≡ 0 = ground arith in
      let ih =
        visit_bits-ones w (suc fuel) (n / 2) (omega (arith, pow-suc_two w))
          (omega (arith, enough)) in
      rw even (visit_shift w (suc fuel) n 0 (sym zero_low) ∙ ap (Option.map up) ih)
  | inl odd ↦
      let one_low : n % 2 ≡ 1 = (==_iff (n % 2) 1).0 odd in
      let digits : bit_xor n 0 ≡ bit_xor (n / 2) 0 * 2 + 1 = bit_xor_digit n 0 ∙ rw one_low refl in
      let pos : ctz (suc w) (bit_xor n 0) ≡ 0 = ctz-odd w (bit_xor n 0) (omega (arith, digits)) in
      let ih =
        visit_bits-ones w fuel (n / 2) (omega (arith, pow-suc_two w))
          (omega (arith, enough, one_low)) in
      rw odd (
        visit_next (suc w) fuel n 0 (omega (arith, digits))
        ∙ ap
            (λ (q : ℕ).
              visit_bits (suc w) fuel n (bit_or 0 (2 ^ q)) >>= λ others. some (q ∷ others))
            pos
        ∙ ap (λ (r : Option (List ℕ)). r >>= λ others. some (0 ∷ others))
            (visit_shift w fuel n 1 (sym one_low) ∙ ap (Option.map up) ih))
]

-- The places, counted by the ones below them.
abbrev below : ℕ → ℕ → ℕ → ℕ
below w n i = popcount w (n % 2 ^ i)

below-suc : (w n i : ℕ) → below (suc w) n (suc i) ≡ n % 2 + below w (n / 2) i
unfolding popcount
below-suc w n i =
    let d : n % 2 ^ suc i ≡ n / 2 % 2 ^ i * 2 + n % 2 =
      ap (λ (t : ℕ). n % t) (pow-suc_two i) ∙ mod_double n (2 ^ i) (pow_pos i) in
    let half : (n / 2 % 2 ^ i * 2 + n % 2) / 2 ≡ n / 2 % 2 ^ i = omega arith in
    let low : (n / 2 % 2 ^ i * 2 + n % 2) % 2 ≡ n % 2 = omega arith in rw (d, half, low) refl

map_below :
    (w n : ℕ) (places : List ℕ)
    → map (λ i. below (suc w) n i) (up places)
      ≡ map (λ (t : ℕ). n % 2 + t) (map (λ i. below w (n / 2) i) places)
map_below w n [] = refl
map_below w n (p ∷ places) = rw (below-suc w n p, map_below w n places) refl

map_zero : (ts : List ℕ) → map (λ (t : ℕ). 0 + t) ts ≡ ts
map_zero [] = refl
map_zero (t ∷ ts) = let e : 0 + t ≡ t = omega arith in rw (e, map_zero ts) refl

map_one : (ts : List ℕ) → map (λ (t : ℕ). 1 + t) ts ≡ up ts
map_one [] = refl
map_one (t ∷ ts) = let e : 1 + t ≡ suc t = omega arith in rw (e, map_one ts) refl

ones-below : (w n : ℕ) → map (λ i. below w n i) (ones w n) ≡ upto (popcount w n)
unfolding ones popcount upto
ones-below zero n = refl
ones-below (suc w) n = elim (Bool-cases (n % 2 == 1)) [
  | inr even ↦
      let zero_low : n % 2 ≡ 0 = ground arith in
      let count : n % 2 + popcount w (n / 2) ≡ popcount w (n / 2) = omega arith in
      rw (even, count)
        (map_below w n (ones w (n / 2))
          ∙ rw zero_low (map_zero (map (λ i. below w (n / 2) i) (ones w (n / 2))))
          ∙ ones-below w (n / 2))
  | inl odd ↦
      let one_low : n % 2 ≡ 1 = (==_iff (n % 2) 1).0 odd in
      let count : n % 2 + popcount w (n / 2) ≡ suc (popcount w (n / 2)) = omega arith in
      let first : below (suc w) n 0 ≡ 0 = first_below w n in
      rw (odd, count)
        (ap (λ (t : ℕ). t ∷ map (λ i. below (suc w) n i) (up (ones w (n / 2)))) first
          ∙ ap (λ (ts : List ℕ). 0 ∷ ts)
              (map_below w n (ones w (n / 2))
                ∙ rw one_low (map_one (map (λ i. below w (n / 2) i) (ones w (n / 2))))
                ∙ ap up (ones-below w (n / 2))))
]
  where
    first_below : (w n : ℕ) → below (suc w) n 0 ≡ 0
    first_below w n = let e : n % 2 ^ 0 ≡ 0 = omega arith in rw e (popcount-zero (suc w))

map-congr : (f g : ℕ → ℕ) (is : List ℕ) → ((i : ℕ) → f i ≡ g i) → map f is ≡ map g is
map-congr f g [] e = refl
map-congr f g (i ∷ is) e = rw (e i, map-congr f g is e) refl

-- The count of the ones below each of them goes over the numbers up to the count of all.
pub ones-upto :
    (w n : ℕ) → map (λ i. popcount w (bit_and n (2 ^ i - 1))) (ones w n) ≡ upto (popcount w n)
ones-upto w n =
    map-congr (λ i. popcount w (bit_and n (2 ^ i - 1))) (λ i. below w n i) (ones w n)
      (λ i. ap (popcount w) (bit_and_mask i n))
    ∙ ones-below w n
