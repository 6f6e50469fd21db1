-- ===== src/Hi/Segments.antt =====
-- The children of a hi cut as runs of segments, and the loop that finds the child of a segment.
use choose_cut.Base.{
  ℕ, zero, suc, ◌+◌, ◌≤◌, ◌<◌, ◌≡◌, refl, ◌∙◌, arith, ◌⊎◌, ◌↔◌, inl, inr, true, false, none, some,
  List, [], ◌∷◌, leb, if◌then◌else◌, get_elem?, Bool-cases,
}
use choose_cut.Hi.{Seg, within, find_ends}

-- The children are not empty and follow one another from segment `n` to segment `top`.
abbrev pub Tiled : ℕ → ℕ → List Seg → Type 0
Tiled n top [] = ⊥
Tiled n top (g ∷ []) = (g.first ≡ n) × (g.first ≤ g.last) × (g.last ≡ top)
Tiled n top (g ∷ h ∷ segs) = (g.first ≡ n) × (g.first ≤ g.last) × Tiled (g.last + 1) top (h ∷ segs)

-- The child of a segment; the last one of a segment behind all.
abbrev pub place : List Seg → ℕ → ℕ
place [] x = 0
place (g ∷ []) x = 0
place (g ∷ h ∷ segs) x = let rest = place (h ∷ segs) x in if leb x g.last then 0 else suc rest

pub Tiled-le : (n top : ℕ) (segs : List Seg) → Tiled n top segs → n ≤ top
Tiled-le n top [] t = absurd t
Tiled-le n top (g ∷ []) t = omega arith
Tiled-le n top (g ∷ h ∷ segs) t = omega (arith, Tiled-le (g.last + 1) top (h ∷ segs) t.2)

-- One round of the loop.
module _ (s e : ℕ) (g : Seg) (segs : List Seg) (i : ℕ) where
  end_here :
      (c : ℕ) → within e g ≡ true → find_ends s e (g ∷ segs) i (some c) none ≡ (some c, some i)
  unfolding find_ends
  end_here c h = rw (h, find_ends) refl

  end_later :
      (c : ℕ)
      → within e g ≡ false
      → find_ends s e (g ∷ segs) i (some c) none ≡ find_ends s e segs (i + 1) (some c) none
  unfolding find_ends
  end_later c h = rw (h, find_ends) (rw h refl)

  both_here :
      within s g ≡ true
      → within e g ≡ true
      → find_ends s e (g ∷ segs) i none none ≡ (some i, some i)
  unfolding find_ends
  both_here h k = rw (h, k, find_ends) refl

  start_here :
      within s g ≡ true
      → within e g ≡ false
      → find_ends s e (g ∷ segs) i none none ≡ find_ends s e segs (i + 1) (some i) none
  unfolding find_ends
  start_here h k = rw (h, k, find_ends) (rw (h, k) refl)

  both_later :
      within s g ≡ false
      → within e g ≡ false
      → find_ends s e (g ∷ segs) i none none ≡ find_ends s e segs (i + 1) none none
  unfolding find_ends
  both_later h k = rw (h, k, find_ends) (rw h refl)

place-zero : (g h : Seg) (segs : List Seg) (x : ℕ) → x ≤ g.last → place (g ∷ h ∷ segs) x ≡ 0
place-zero g h segs x le = ground arith

place-suc :
    (g h : Seg) (segs : List Seg) (x : ℕ)
    → g.last < x
    → place (g ∷ h ∷ segs) x ≡ suc (place (h ∷ segs) x)
place-suc g h segs x lt = ground arith

find_end :
    (n top s e c i : ℕ) (segs : List Seg)
    → Tiled n top segs
    → n ≤ e
    → e ≤ top
    → find_ends s e segs i (some c) none ≡ (some c, some (i + place segs e))
find_end n top s e c i [] t lo hi = absurd t
find_end n top s e c i (g ∷ []) t lo hi = rw (end_here s e g [] i c (ground arith)) (ground arith)
find_end n top s e c i (g ∷ h ∷ segs) t lo hi = elim (Bool-cases (leb e g.last)) [
  | inl low ↦
      rw (end_here s e g (h ∷ segs) i c (ground arith), place-zero g h segs e (ground arith))
        (ground arith)
  | inr high ↦
      rw (end_later s e g (h ∷ segs) i c (ground arith), place-suc g h segs e (ground arith))
        (find_end (g.last + 1) top s e c (i + 1) (h ∷ segs) t.2 (ground arith) hi ∙ ground arith)
]

-- The loop finds the children of both ends.
pub find_ends-place :
    (n top s e i : ℕ) (segs : List Seg)
    → Tiled n top segs
    → n ≤ s
    → s ≤ e
    → e ≤ top
    → find_ends s e segs i none none ≡ (some (i + place segs s), some (i + place segs e))
find_ends-place n top s e i [] t lo le hi = absurd t
find_ends-place n top s e i (g ∷ []) t lo le hi =
    rw (both_here s e g [] i (ground arith) (ground arith)) (ground arith)
find_ends-place n top s e i (g ∷ h ∷ segs) t lo le hi = elim (Bool-cases (leb s g.last)) [
  | inr high ↦
      rw
        (
          both_later s e g (h ∷ segs) i (ground arith) (ground arith),
          place-suc g h segs s (ground arith),
          place-suc g h segs e (ground arith),
        )
        (find_ends-place (g.last + 1) top s e (i + 1) (h ∷ segs) t.2 (ground arith) le hi
          ∙ ground arith)
  | inl low ↦ elim (Bool-cases (leb e g.last)) [
    | inl low' ↦
        rw
          (
            both_here s e g (h ∷ segs) i (ground arith) (ground arith),
            place-zero g h segs s (ground arith),
            place-zero g h segs e (ground arith),
          )
          (ground arith)
    | inr high ↦
        rw
          (
            start_here s e g (h ∷ segs) i (ground arith) (ground arith),
            place-zero g h segs s (ground arith),
            place-suc g h segs e (ground arith),
          )
          (find_end (g.last + 1) top s e i (i + 1) (h ∷ segs) t.2 (ground arith) hi ∙ ground arith)
  ]
]

-- A child lies within the whole.
pub Tiled-bounds :
    (n top j : ℕ) (segs : List Seg) (g : Seg)
    → Tiled n top segs
    → get_elem? segs j ≡ some g
    → (n ≤ g.first) × (g.first ≤ g.last) × (g.last ≤ top)
Tiled-bounds n top j [] g t e = absurd t
Tiled-bounds n top zero (h ∷ []) g t e = ground arith
Tiled-bounds n top (suc j) (h ∷ []) g t e = cc
Tiled-bounds n top zero (h ∷ k ∷ segs) g t e =
    ground (arith, Tiled-le (h.last + 1) top (k ∷ segs) t.2)
Tiled-bounds n top (suc j) (h ∷ k ∷ segs) g t e =
    omega (arith, Tiled-bounds (h.last + 1) top j (k ∷ segs) g t.2 e)

-- The child at `j` is the one of a segment, or stands before or behind it.
pub place-bounds :
    (n top x j : ℕ) (segs : List Seg) (g : Seg)
    → Tiled n top segs
    → n ≤ x
    → x ≤ top
    → get_elem? segs j ≡ some g
    → ((place segs x ≤ j) ↔ (x ≤ g.last)) × ((j ≤ place segs x) ↔ (g.first ≤ x))
place-bounds n top x j [] g t lo hi e = absurd t
place-bounds n top x zero (h ∷ []) g t lo hi e =
    ((ground arith, ground arith), (ground arith, ground arith))
place-bounds n top x (suc j) (h ∷ []) g t lo hi e = cc
place-bounds n top x zero (h ∷ k ∷ segs) g t lo hi e = elim (Bool-cases (leb x h.last)) [
  | inl low ↦
      rw (place-zero h k segs x (ground arith))
        ((ground arith, ground arith), (ground arith, ground arith))
  | inr high ↦
      rw (place-suc h k segs x (ground arith))
        ((ground arith, ground arith), (ground arith, ground arith))
]
place-bounds n top x (suc j) (h ∷ k ∷ segs) g t lo hi e = elim (Bool-cases (leb x h.last)) [
  | inl low ↦
      let b = Tiled-bounds (h.last + 1) top j (k ∷ segs) g t.2 e in
      rw (place-zero h k segs x (ground arith))
        ((ground arith, ground arith), (ground arith, ground arith))
  | inr high ↦
      let ih = place-bounds (h.last + 1) top x j (k ∷ segs) g t.2 (ground arith) hi e in
      rw (place-suc h k segs x (ground arith)) (
        (λ p. ih.0.0 (omega arith), λ p. let q = ih.0.1 p in omega arith),
        (λ p. ih.1.0 (omega arith), λ p. let q = ih.1.1 p in omega arith),
      )
]

-- There is a child for each segment; behind all segments it is the last.
pub get_elem?-place :
    (n top x : ℕ) (segs : List Seg)
    → Tiled n top segs
    → n ≤ x
    → (g : Seg) × (get_elem? segs (place segs x) ≡ some g)
      × (g.first ≤ x)
      × ((x ≤ g.last) ⊎ (g.last ≡ top))
get_elem?-place n top x [] t lo = absurd t
get_elem?-place n top x (g ∷ []) t lo = (g, refl, ground arith, inr t.2)
get_elem?-place n top x (g ∷ h ∷ segs) t lo = elim (Bool-cases (leb x g.last)) [
  | inl low ↦ rw (place-zero g h segs x (ground arith)) (g, refl, ground arith, inl (ground arith))
  | inr high ↦
      rw (place-suc g h segs x (ground arith))
        (get_elem?-place (g.last + 1) top x (h ∷ segs) t.2 (ground arith))
]
