-- ===== src/Hi/Sweep.antt =====
-- hi_get_me_1d of cut-hi.c, with get_match_expect of cut-inl.c: the sweep over the segments that finds the
-- children of a hi cut. A heap holds the ranges that have begun and not ended.
pub mod Numbers
pub mod Children
pub mod Pops
pub mod State
pub mod Loop
use choose_cut.Base.{
  ℕ, zero, suc, ◌+◌, ◌-◌, ◌*◌, ◌^◌, ◌%◌, Bool, true, false, ◌||◌, Option, none, some, List, [], ◌∷◌,
  ◌++◌, map,
}
use choose_cut.Base.{
  ltb, leb, ◌==◌, if◌then◌else◌, ◌>>=◌, ◌>>◌, assert, length, u8, u32, add32, add64,
}
use choose_cut.Ranges.{Range1d}
use choose_cut.Double.{Doubles, from_signed}
use choose_cut.Heap.{HeapOps}
use choose_cut.Split.Sweep.{add_weights}
use choose_cut.Hi.{Seg}

-- `HICHILD`
abbrev pub hi_child : ℕ
hi_child = 64

-- What `node_r[childs][0]` becomes.
unfoldable pub next_first : List Seg → ℕ
next_first [] = 0
next_first (g ∷ []) = u8 (g.last + 1)
next_first (g ∷ h ∷ segs) = next_first (h ∷ segs)

-- A new value of `node_r[childs - 1][1]`; `none` is a write before the array.
unfoldable pub update_last : (ℕ → ℕ) → List Seg → Option (List Seg)
update_last f [] = none
update_last f (g ∷ []) = some (record g { last = u8 (f g.last) } ∷ [])
update_last f (g ∷ h ∷ segs) = do rest ← update_last f (h ∷ segs); some (g ∷ rest)

-- A new child; `none` is a write behind the array.
unfoldable pub add_child : List Seg → ℕ → Option (List Seg)
unfolding next_first
add_child segs rules = do
  assert (ltb (length segs) hi_child)
  some (segs ++ (record { first = next_first segs; last = next_first segs; count = rules } ∷ []))

-- The variables of the sweep: `waiting` are the ranges from `i` on, `total` is `hist->rules`.
pub record HiSweep : Type 0 where
  pub waiting : List Range1d
  pub heap : List Range1d
  pub curr : ℕ
  pub prev_new_ends : Bool
  pub new_start : Bool
  pub segs : List Seg
  pub total : ℕ

module _ (H : HeapOps) where
  open H use {heap_push, heap_pop}

  -- The ranges that end before `curr` leave the heap. It has fuel; `none` means that it ran out, here
  -- and below.
  pub pop_below : ℕ → ℕ → ℕ → Bool → List Range1d → Option (ℕ × Bool × List Range1d)
  pop_below zero curr rules new_ends h = none
  pop_below (suc fuel) curr rules new_ends [] = some (rules, new_ends, [])
  pop_below (suc fuel) curr rules new_ends (top ∷ rest) = elim (ltb top.high curr) [
    | true ↦ pop_below fuel curr (add32 rules top.weight) true (heap_pop (top ∷ rest))
    | false ↦ some (rules, new_ends, top ∷ rest)
  ]

  -- The end of a segment.
  pub hi_segment : ℕ → HiSweep → Option HiSweep
  unfolding pop_below add_weights add_child update_last
  hi_segment seg st = do
    (ended, new_ends, h) ← pop_below (length st.heap + 1) st.curr 0 false st.heap
    let rules = add_weights ended h
    let new_child = if st.new_start then true else st.prev_new_ends
    segs ← if new_child then add_child st.segs rules else update_last (λ l. l + 1) st.segs
    some (record {
      waiting = st.waiting;
      heap = h;
      curr = add64 st.curr seg;
      prev_new_ends = new_ends;
      new_start = false;
      segs = segs;
      total = if new_child then add32 st.total rules else st.total;
    })

  pub hi_loop : ℕ → ℕ → HiSweep → Option HiSweep
  unfolding hi_segment
  hi_loop zero seg st = none
  hi_loop (suc fuel) seg st = elim st.waiting [
    | [] ↦ elim st.heap [
      | [] ↦ some st
      | top ∷ rest ↦ hi_segment seg st >>= λ st'. hi_loop fuel seg st'
    ]
    | r ∷ rs ↦ elim (ltb r.low st.curr) [
      | true ↦
          hi_loop fuel seg
            (record st { heap = heap_push st.heap r; waiting = rs; new_start = true })
      | false ↦ hi_segment seg st >>= λ st'. hi_loop fuel seg st'
    ]
  ]

  abbrev pub hi_start : ℕ → ℕ → Range1d → List Range1d → HiSweep
  hi_start low seg first rs = record {
    waiting = rs;
    heap = heap_push [] first;
    curr = add64 low seg;
    prev_new_ends = true;
    new_start = false;
    segs = [];
    total = 0;
  }

  -- `hi_get_me_1d` without what it returns: the children and the sum of their counts.
  unfoldable pub hi_get_segs : Range1d → List Range1d → ℕ → ℕ → ℕ → Option (List Seg × ℕ)
  unfolding hi_loop update_last
  hi_get_segs first rs low seg div = do
    st ← hi_loop (length rs + div + 1) seg (hi_start low seg first rs)
    segs ← update_last (λ _. div - 1) st.segs
    some (segs, st.total)

module _ (F : Doubles) where
  open F use {Double, from_int, add, div}

  -- The loop of `get_match_expect` over the counts, which are `int`s; behind the children they are 0.
  add_squares : ℕ → List ℕ → Double → Double
  add_squares rules [] ret = ret
  add_squares rules (c ∷ counts) ret =
      add_squares rules counts
        (if c == 0 then ret else add ret (div (from_signed F (u32 (c * c))) (from_signed F rules)))

  unfoldable pub get_match_expect : List ℕ → ℕ → Double
  unfolding add_squares
  get_match_expect counts rules = add_squares rules counts (from_int 0)

  unfoldable pub hi_get_me_1d :
      HeapOps → Range1d → List Range1d → ℕ → ℕ → ℕ → Option (Double × List Seg × ℕ)
  unfolding hi_get_segs get_match_expect
  hi_get_me_1d H first rs low seg div = do
    (segs, total) ← hi_get_segs H first rs low seg div
    some (get_match_expect (map (λ (g : Seg). g.count) segs) total, segs, total)
