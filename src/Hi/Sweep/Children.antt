-- ===== src/Hi/Sweep/Children.antt =====
-- The list of children as the sweep makes it.
use mathlib.Core.Option
use choose_cut.Base.{
  u8, ℕ, zero, suc, ◌+◌, ◌-◌, ◌^◌, subst, ◌≤◌, ◌<◌, ◌≡◌, refl, arith, true, some, List, [], ◌∷◌,
  ◌++◌, All, ltb, length, get_elem?,
}
use choose_cut.Hi.{Seg}
use choose_cut.Hi.Segments.{Tiled}
use choose_cut.Hi.Sweep.{hi_child, next_first, update_last, add_child}

-- The children of the first `k` segments.
abbrev pub Grown : ℕ → List Seg → Type 0
Grown zero segs = segs ≡ []
Grown (suc k) segs = Tiled 0 k segs

abbrev pub one : ℕ → ℕ → Seg
one k count = record { first = k; last = k; count = count }

next_first-Tiled :
    (n top : ℕ) (segs : List Seg) → Tiled n top segs → top < 2 ^ 8 - 1 → next_first segs ≡ top + 1
unfolding next_first
next_first-Tiled n top [] t small = absurd t
next_first-Tiled n top (g ∷ []) t small = omega (arith, t.2)
next_first-Tiled n top (g ∷ h ∷ segs) t small =
    next_first-Tiled (g.last + 1) top (h ∷ segs) t.2 small

Tiled-append :
    (n top count : ℕ) (segs : List Seg)
    → Tiled n top segs
    → Tiled n (top + 1) (segs ++ (one (top + 1) count ∷ []))
Tiled-append n top count [] t = absurd t
Tiled-append n top count (g ∷ []) t = (t.0, t.1, (omega (arith, t.2), omega arith, refl))
Tiled-append n top count (g ∷ h ∷ segs) t =
    (t.0, t.1, Tiled-append (g.last + 1) top count (h ∷ segs) t.2)

length-Tiled : (n top : ℕ) (segs : List Seg) → Tiled n top segs → n + length segs ≤ top + 1
length-Tiled n top [] t = absurd t
length-Tiled n top (g ∷ []) t = omega arith
length-Tiled n top (g ∷ h ∷ segs) t = omega (arith, length-Tiled (g.last + 1) top (h ∷ segs) t.2)

-- A new child for segment `k`.
pub add_child-Grown :
    (k count : ℕ) (segs : List Seg)
    → Grown k segs
    → k < hi_child
    → (add_child segs count ≡ some (segs ++ (one k count ∷ [])))
      × Grown (suc k) (segs ++ (one k count ∷ []))
unfolding add_child next_first
add_child-Grown zero count segs e small = rw e (refl, (refl, omega arith, refl))
add_child-Grown (suc k) count segs t small =
    let first = next_first-Tiled 0 k segs t (omega arith) in
    let few : ltb (length segs) hi_child ≡ true = ground (arith, length-Tiled 0 k segs t) in
    let next : k + 1 ≡ suc k = omega arith in
    (rw (few, first, next) refl, rw next at (Tiled-append 0 k count segs t))

-- The last child is stretched.
pub record Stretched (f : ℕ → ℕ) (n v : ℕ) (P : ℕ → ℕ → ℕ → Type 0) (segs : List Seg) : Type 0 where
  pub out : List Seg
  pub run : update_last f segs ≡ some out
  pub tiled : Tiled n v out
  pub every : All (λ g. P g.first g.last g.count) out

pub update_last-Stretched :
    (f : ℕ → ℕ) (n top v : ℕ) (P : ℕ → ℕ → ℕ → Type 0) (segs : List Seg)
    → Tiled n top segs
    → f top ≡ v
    → top ≤ v
    → v < 2 ^ 8
    → ((first count : ℕ) → first ≤ top → P first top count → P first v count)
    → All (λ g. P g.first g.last g.count) segs
    → Stretched f n v P segs
unfolding update_last
update_last-Stretched f n top v P [] t e le small keep every = absurd t
update_last-Stretched f n top v P (g ∷ []) t e le small keep every =
    let same : u8 (f g.last) ≡ v = rw (t.2, e) (omega arith) in
    record {
      out = record g { last = v } ∷ [];
      run = rw same refl;
      tiled = (t.0, omega (arith, t.1, t.2), refl);
      every = (
        keep g.first g.count (omega (arith, t.1, t.2)) (let here = every.0 in rw t.2 at here),
        tt,
      );
    }
update_last-Stretched f n top v P (g ∷ h ∷ segs) t e le small keep every =
    let ih = update_last-Stretched f (g.last + 1) top v P (h ∷ segs) t.2 e le small keep every.1 in
    record {
      out = g ∷ ih.out;
      run = rw ih.run refl;
      tiled = Tiled-cons g n v ih.out t.0 t.1 ih.tiled;
      every = (every.0, ih.every);
    }
  where
    Tiled-cons :
        (g : Seg) (n v : ℕ) (out : List Seg)
        → g.first ≡ n
        → g.first ≤ g.last
        → Tiled (g.last + 1) v out
        → Tiled n v (g ∷ out)
    Tiled-cons g n v [] e le t = absurd t
    Tiled-cons g n v (h ∷ out) e le t = (e, le, t)

pub All-get :
    (P : Seg → Type 0) (segs : List Seg) (j : ℕ) (g : Seg)
    → All P segs
    → get_elem? segs j ≡ some g
    → P g
All-get P [] j g every e = cc
All-get P (h ∷ segs) zero g every e = subst P (Option.some_inj.0 e) every.0
All-get P (h ∷ segs) (suc j) g every e = All-get P segs j g every.1 e
