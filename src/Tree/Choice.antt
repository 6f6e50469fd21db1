-- ===== src/Tree/Choice.antt =====
-- cut_node of cut.c: which cut a node gets, and in which dimension. The cuts are behind the interface that
-- `struct cut_method` is.
pub mod Minima
pub mod Chosen
mod Tests
use choose_cut.Base.{
  ℕ, zero, suc, ◌+◌, ◌-◌, ◌*◌, ◌^◌, Bool, true, false, Option, none, some, List, [], ◌∷◌, map,
}
use choose_cut.Base.{ltb, leb, if◌then◌else◌, ◌>>=◌, get_elem?}
use choose_cut.Rule.{dims}
use choose_cut.Double.{Doubles}
use choose_cut.RuleSet.{RuleSet, num}
use choose_cut.Bitmap.{child_count}
use choose_cut.Split.{bucket_size}

-- The loop that finds the least quantity: `t`, `mem_quant[0]` and `chose_t`.
pub least_quant : List ℕ → ℕ → ℕ → ℕ → ℕ
least_quant [] t quant chose_t = chose_t
least_quant (q ∷ qs) t quant chose_t =
    let fewer = ltb q quant in
    least_quant qs (t + 1) (if fewer then q else quant) (if fewer then t else chose_t)

abbrev pub by_quant : List ℕ → ℕ → ℕ
by_quant [] chose_t = chose_t
by_quant (q ∷ qs) chose_t = least_quant (q ∷ qs) 0 q chose_t

module _ (F : Doubles) where
  open F use {Double, from_int, less}

  -- The functions of `struct cut_method` that cut_node calls before it cuts. They share the state of
  -- `struct cut_aux`; `none` is a failed assertion.
  pub record CutMethod (Aux : Type 0) : Type 0 where
    pub match_expect : RuleSet → ℕ → Aux → Option (Double × Aux)
    pub mem_quant : Aux → ℕ → ℕ
    pub all_fits_bs : Aux → ℕ → Bool

  -- `min[t]` and `chose_dim[t]`.
  pub record Least : Type 0 where
    pub min : Double
    pub dim : ℕ

  -- What the node becomes: a leaf, or it is cut by a method in a dimension.
  pub data Choice (Aux : Type 0) : Type 0 where
    leaf : Choice Aux
    cut_by : ℕ → ℕ → Aux → Choice Aux

  module _ {Aux : Type 0} where
    -- The loop over the dimensions behind the first, from `i` on.
    pub scan_dims : CutMethod Aux → RuleSet → ℕ → ℕ → Least → Aux → Option (Least × Aux)
    scan_dims m rules zero i kept aux = some (kept, aux)
    scan_dims m rules (suc left) i kept aux = m.match_expect rules i aux >>= λ (me, aux').
        scan_dims m rules left (i + 1)
          (if less me kept.min then record { min = me; dim = i } else kept) aux'

    -- The body of the loop over the methods.
    pub scan_method : CutMethod Aux → RuleSet → Aux → Option (Least × Aux)
    unfolding scan_dims
    scan_method m rules aux = m.match_expect rules 0 aux >>= λ (me, aux').
        scan_dims m rules (dims - 1) 1 (record { min = me; dim = 0 }) aux'

    pub scan_methods : List (CutMethod Aux) → RuleSet → Aux → Option (List Least × Aux)
    unfolding scan_method
    scan_methods [] rules aux = some ([], aux)
    scan_methods (m ∷ ms) rules aux = do
      (least, aux') ← scan_method m rules aux
      (others, aux'') ← scan_methods ms rules aux'
      some (least ∷ others, aux'')

    -- The children of a method in its dimension, if each fits in a bucket.
    abbrev pub quant_of : Aux → CutMethod Aux → Least → ℕ
    quant_of aux m l = if m.all_fits_bs aux l.dim then m.mem_quant aux l.dim else child_count

    unfoldable pub quants : Aux → List (CutMethod Aux) → List Least → List ℕ
    quants aux [] ls = []
    quants aux (m ∷ ms) [] = []
    quants aux (m ∷ ms) (l ∷ ls) = quant_of aux m l ∷ quants aux ms ls

  -- The loop that finds the least expectation: `t`, `min_t` and `chose_t`.
  pub least_expect : List Least → ℕ → Double → ℕ → ℕ
  least_expect [] t min_t chose_t = chose_t
  least_expect (l ∷ ls) t min_t chose_t =
      let better = less l.min min_t in
      least_expect ls (t + 1) (if better then l.min else min_t) (if better then t else chose_t)

  module _ {Aux : Type 0} where
    unfoldable pub chose : Bool → List (CutMethod Aux) → RuleSet → List Least → Aux → ℕ
    unfolding least_expect least_quant quants
    chose memory_constraints cuts rules ls aux =
        let by_expect = least_expect ls 0 (from_int (num rules)) 0 in
        if memory_constraints then by_quant (quants aux cuts ls) by_expect else by_expect

    -- `cut_node` up to its call of the method's own cut.
    unfoldable pub cut_node : Bool → List (CutMethod Aux) → RuleSet → Aux → Option (Choice Aux)
    unfolding scan_methods chose
    cut_node memory_constraints cuts rules aux =
        if leb (num rules) bucket_size then some leaf else (do
          (ls, aux') ← scan_methods cuts rules aux
          let t = chose memory_constraints cuts rules ls aux'
          l ← get_elem? ls t
          some (cut_by t l.dim aux'))
