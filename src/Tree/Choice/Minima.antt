-- ===== src/Tree/Choice/Minima.antt =====
-- What the loops of cut_node find: a least expectation over the dimensions, and over the methods, and a
-- least number of children.
use choose_cut.Base.{
  ℕ, zero, suc, ◌+◌, ◌-◌, ◌≤◌, ◌<◌, ◌≡◌, refl, sym, ◌∙◌, ap, arith, ◌⊎◌, inl, inr, true, false,
  some, List, [], ◌∷◌, All, ltb, ◌>>=◌, length, get_elem?, Bool-cases,
}
use choose_cut.Rule.{dims}
use choose_cut.Double.{Doubles, IsOrdered}
use choose_cut.RuleSet.{RuleSet}
use choose_cut.Tree.Choice.{CutMethod, Least, scan_dims, scan_method, least_expect, least_quant}

-- The choice stays and nothing is less than before, or it is an item that no item is less than.
pub least_quant_cases :
    (qs : List ℕ) (t quant chose_t : ℕ)
    → ((least_quant qs t quant chose_t ≡ chose_t) × All (λ q. quant ≤ q) qs)
      ⊎ ((j : ℕ) × (q : ℕ) × (least_quant qs t quant chose_t ≡ t + j)
          × (get_elem? qs j ≡ some q)
          × (q < quant)
          × All (λ x. q ≤ x) qs)
unfolding least_quant
least_quant_cases [] t quant chose_t = inl (refl, tt)
least_quant_cases (q ∷ qs) t quant chose_t = elim (Bool-cases (ltb q quant)) [
  | inl fewer ↦ rw fewer (elim (least_quant_cases qs (t + 1) q t) [
    | inl (e, all) ↦ inr (0, q, omega (arith, e), refl, ground arith, (omega arith, all))
    | inr (j, q', e, at, lt, all) ↦
        inr (suc j, q', omega (arith, e), at, ground arith, (omega arith, all))
  ])
  | inr more ↦ rw more (elim (least_quant_cases qs (t + 1) quant chose_t) [
    | inl (e, all) ↦ inl (e, (ground arith, all))
    | inr (j, q', e, at, lt, all) ↦
        inr (suc j, q', omega (arith, e), at, omega arith, (ground arith, all))
  ])
]

module _ (F : Doubles) (order : IsOrdered F) where
  -- The first number is no less than the second.
  abbrev pub IsNotLess : F.Double → F.Double → Type 0
  IsNotLess a b = F.less a b ≡ false

  irreflexive : (a : F.Double) → IsNotLess a a
  irreflexive a = elim (Bool-cases (F.less a a)) [ inl e ↦ order.asym a a e | inr e ↦ e ]

  less_trans : (a b c : F.Double) → F.less a b ≡ true → F.less b c ≡ true → F.less a c ≡ true
  less_trans a b c ab bc = elim (Bool-cases (F.less a c)) [
    | inl e ↦ e
    | inr e ↦ let never = order.neg_trans a c b e (order.asym b c bc) in cc
  ]

  pub least_expect_cases :
      (ls : List (Least F)) (t : ℕ) (min_t : F.Double) (chose_t : ℕ)
      → ((least_expect F ls t min_t chose_t ≡ chose_t) × All (λ l. IsNotLess l.min min_t) ls)
        ⊎ ((j : ℕ) × (l : Least F) × (least_expect F ls t min_t chose_t ≡ t + j)
            × (get_elem? ls j ≡ some l)
            × (F.less l.min min_t ≡ true)
            × All (λ x. IsNotLess x.min l.min) ls)
  unfolding least_expect
  least_expect_cases [] t min_t chose_t = inl (refl, tt)
  least_expect_cases (l ∷ ls) t min_t chose_t = elim (Bool-cases (F.less l.min min_t)) [
    | inl better ↦ rw better (elim (least_expect_cases ls (t + 1) l.min t) [
      | inl (e, all) ↦ inr (0, l, omega (arith, e), refl, better, (irreflexive l.min, all))
      | inr (j, l', e, at, le, all) ↦ inr (
        suc j,
        l',
        omega (arith, e),
        at,
        less_trans l'.min l.min min_t le better,
        (order.asym l'.min l.min le, all),
      )
    ])
    | inr worse ↦ rw worse (elim (least_expect_cases ls (t + 1) min_t chose_t) [
      | inl (e, all) ↦ inl (e, (refl, all))
      | inr (j, l', e, at, le, all) ↦ inr (
        suc j,
        l',
        omega (arith, e),
        at,
        le,
        (order.neg_trans l.min min_t l'.min worse (order.asym l'.min min_t le), all),
      )
    ])
  ]

  module _ {Aux : Type 0} (m : CutMethod F Aux) (rules : RuleSet) where
    -- The expectations of the dimensions from `i` on, one after the other.
    abbrev pub Estimates : ℕ → Aux → List F.Double → Aux → Type 0
    Estimates i aux [] last = aux ≡ last
    Estimates i aux (me ∷ mes) last =
        (mid : Aux) × (m.match_expect rules i aux ≡ some (me, mid)) × Estimates (i + 1) mid mes last

    abbrev pub IsTotal : Type 0
    IsTotal =
        (i : ℕ) (aux : Aux)
        → i < dims
        → (me : F.Double) × (aux' : Aux) × (m.match_expect rules i aux ≡ some (me, aux'))

    -- The least of the expectations and of the one that is kept.
    pub record Scanned (left i : ℕ) (kept : Least F) (aux : Aux) : Type 0 where
      pub least : Least F
      pub last : Aux
      pub mes : List F.Double
      pub run : scan_dims F m rules left i kept aux ≡ some (least, last)
      pub estimates : Estimates i aux mes last
      pub count : length mes ≡ left
      pub none_less : All (λ me. IsNotLess me least.min) mes
      pub kept_not_less : IsNotLess kept.min least.min
      pub where_found :
          (least ≡ kept)
          ⊎ ((j : ℕ) × (get_elem? mes j ≡ some least.min) × (least.dim ≡ i + j) × (j < left))

    scan_dims-Scanned :
        IsTotal
        → (left i : ℕ) (kept : Least F) (aux : Aux) → i + left ≤ dims
        → Scanned left i kept aux
    unfolding scan_dims
    scan_dims-Scanned total zero i kept aux le = record {
      least = kept;
      last = aux;
      mes = [];
      run = refl;
      estimates = refl;
      count = refl;
      none_less = tt;
      kept_not_less = irreflexive kept.min;
      where_found = inl refl;
    }
    scan_dims-Scanned total (suc left) i kept aux le =
        let (me, mid, here) = total i aux (omega arith) in
        elim (Bool-cases (F.less me kept.min)) [
          | inl better ↦
              let s =
                scan_dims-Scanned total left (i + 1) (record { min = me; dim = i }) mid
                  (omega arith) in
              record {
                least = s.least;
                last = s.last;
                mes = me ∷ s.mes;
                run = rw (here, ◌>>=◌) (rw better s.run);
                estimates = (mid, here, s.estimates);
                count = omega (arith, s.count);
                none_less = (s.kept_not_less, s.none_less);
                kept_not_less =
                    order.neg_trans kept.min me s.least.min (order.asym me kept.min better)
                      s.kept_not_less;
                where_found = inr (elim s.where_found [
                  | inl same ↦ (
                    0,
                    ap some (sym (ap (λ (l : Least F). l.min) same)),
                    omega (arith, ap (λ (l : Least F). l.dim) same),
                    omega arith,
                  )
                  | inr (j, at, dim, lt) ↦ (suc j, at, omega (arith, dim), omega arith)
                ]);
              }
          | inr worse ↦
              let s = scan_dims-Scanned total left (i + 1) kept mid (omega arith) in
              record {
                least = s.least;
                last = s.last;
                mes = me ∷ s.mes;
                run = rw (here, ◌>>=◌) (rw worse s.run);
                estimates = (mid, here, s.estimates);
                count = omega (arith, s.count);
                none_less =
                    (order.neg_trans me kept.min s.least.min worse s.kept_not_less, s.none_less);
                kept_not_less = s.kept_not_less;
                where_found = elim s.where_found [
                  | inl same ↦ inl same
                  | inr (j, at, dim, lt) ↦ inr (suc j, at, omega (arith, dim), omega arith)
                ];
              }
        ]

    -- With a method that answers in each dimension, cut_node asks it once for each, in their order, and keeps
    -- a dimension whose expectation no other is less than.
    pub scan_method-Estimates :
        IsTotal
        → (aux : Aux)
        → (least : Least F) × (last : Aux) × (mes : List F.Double) × (scan_method F m rules aux
            ≡ some (least, last))
          × Estimates 0 aux mes last
          × (length mes ≡ dims)
          × (get_elem? mes least.dim ≡ some least.min)
          × (least.dim < dims)
          × All (λ me. IsNotLess me least.min) mes
    unfolding scan_method
    scan_method-Estimates total aux =
        let (me, mid, here) = total 0 aux (omega arith) in
        let s =
          scan_dims-Scanned total (dims - 1) 1 (record { min = me; dim = 0 }) mid (omega arith) in
        let place : (get_elem? (me ∷ s.mes) s.least.dim ≡ some s.least.min) × (s.least.dim < dims) =
          elim s.where_found [
            | inl same ↦ rw same (refl, omega arith)
            | inr (j, at, dim, lt) ↦
                (let next : s.least.dim ≡ suc j = omega (arith, dim) in
                  (ap (get_elem? (me ∷ s.mes)) next ∙ at, omega (arith, next)))
          ] in
        (
          s.least,
          s.last,
          me ∷ s.mes,
          rw (here, ◌>>=◌) s.run,
          (mid, here, s.estimates),
          omega (arith, s.count),
          place.0,
          place.1,
          (s.kept_not_less, s.none_less),
        )
