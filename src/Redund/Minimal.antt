-- ===== src/Redund/Minimal.antt =====
-- What remove_redund leaves: rules of the set, and none that an earlier one contains.
use choose_cut.Base.{◌≡◌, subst, refl, arith, inl, inr, false, some}
use choose_cut.Base.{
  List, [], ◌∷◌, ◌++◌, All, In, All-map, All-In, In-append_left, In-append_last, ◌==◌,
}
use choose_cut.Rule.{Rule, rule_contained}
use choose_cut.Redund.{max_pri, mark_against, mark, keep, remove_redund}
use choose_cut.Redund.Search.{IsLive, Apart, Marked, mark_against-Marked}

-- The rule contains none of these.
abbrev pub Clear : Rule → List Rule → Type 0
Clear t rs = All (λ s. rule_contained t s ≡ false) rs

-- No rule contains a later one.
abbrev pub NoneContained : List Rule → Type 0
NoneContained [] = Unit
NoneContained (r ∷ rs) = Clear r rs × NoneContained rs

-- The second loop keeps a cell as it was, or drops it.
keep-Marked {ℓ} :
    (P : List Rule → Type ℓ) (seen : List Rule) (r r' : Rule) (marked : List Rule)
    → IsLive r
    → Marked seen r r'
    → (Apart seen r → r' ≡ r → P (r ∷ keep marked))
    → P (keep marked)
    → P (keep (r' ∷ marked))
unfolding keep
keep-Marked P seen r r' marked live (inl (e, apart)) kept dropped =
    let k : (r.pri == max_pri) ≡ false = ground arith in rw (e, k) (kept apart e)
keep-Marked P seen r r' marked live (inr (e, before)) kept dropped = rw e dropped

module _ (t : Rule) where
  keep-mark-Clear :
      (seen rs : List Rule) → In t seen → All IsLive rs → Clear t (keep (mark seen rs))
  unfolding mark
  keep-mark-Clear seen [] h live = unfold keep in tt
  keep-mark-Clear seen (r ∷ rs) h live =
      let r' = mark_against seen r in
      let ih = keep-mark-Clear (seen ++ (r' ∷ [])) rs (In-append_left t seen (r' ∷ []) h) live.1 in
      keep-Marked (Clear t) seen r r' (mark (seen ++ (r' ∷ [])) rs) live.0
        (mark_against-Marked seen r)
        (λ apart e. (All-In (λ s. rule_contained s r ≡ false) t seen apart h, ih)) ih

keep-mark-NoneContained :
    (seen rs : List Rule) → All IsLive rs → NoneContained (keep (mark seen rs))
unfolding mark
keep-mark-NoneContained seen [] live = unfold keep in tt
keep-mark-NoneContained seen (r ∷ rs) live =
    let r' = mark_against seen r in
    let ih = keep-mark-NoneContained (seen ++ (r' ∷ [])) rs live.1 in
    keep-Marked NoneContained seen r r' (mark (seen ++ (r' ∷ [])) rs) live.0
      (mark_against-Marked seen r)
      (λ apart e. (
        keep-mark-Clear r (seen ++ (r' ∷ [])) rs
            (subst (λ x. In x (seen ++ (r' ∷ []))) e (In-append_last seen r')) live.1,
        ih,
      ))
      ih

keep-mark-In : (seen rs : List Rule) → All IsLive rs → All (λ s. In s rs) (keep (mark seen rs))
unfolding mark
keep-mark-In seen [] live = unfold keep in tt
keep-mark-In seen (r ∷ rs) live =
    let r' = mark_against seen r in
    let marked = mark (seen ++ (r' ∷ [])) rs in
    let ih = All-map (keep marked) (λ s h. inr h) (keep-mark-In (seen ++ (r' ∷ [])) rs live.1) in
    keep-Marked (λ xs. All (λ s. In s (r ∷ rs)) xs) seen r r' marked live.0
      (mark_against-Marked seen r) (λ apart e. (inl refl, ih)) ih

-- Of a set that is not empty, with no priority equal to the mark, remove_redund leaves only rules
-- of the set, unchanged, and none that one before it contains.
pub remove_redund-NoneContained :
    (r : Rule) (rs : List Rule)
    → All IsLive (r ∷ rs)
    → (out : List Rule) × (remove_redund (r ∷ rs) ≡ some out)
      × NoneContained out
      × All (λ s. In s (r ∷ rs)) out
unfolding remove_redund
remove_redund-NoneContained r rs live =
    let marked = mark (r ∷ []) rs in
    (
      r ∷ keep marked,
      refl,
      (keep-mark-Clear r (r ∷ []) rs (inl refl) live.1, keep-mark-NoneContained (r ∷ []) rs live.1),
      (inl refl, All-map (keep marked) (λ s h. inr h) (keep-mark-In (r ∷ []) rs live.1)),
    )
