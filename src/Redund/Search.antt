-- ===== src/Redund/Search.antt =====
-- Taking redundant rules out changes no lookup.
use choose_cut.Base.{◌≡◌, ◌≢◌, refl, ap, arith, ◌⊎◌, inl, inr, Bool, true, false, ◌||◌, some}
use choose_cut.Base.{List, [], ◌∷◌, ◌++◌, All, ◌==◌, Bool-cases}
use choose_cut.Rule.{Rule, Flow, rule_contained, matches}
use choose_cut.Rule.Matching.{rule_contained-matches, matches-pri, rule_contained-pri}
use choose_cut.RuleSet.{lsearch}
use choose_cut.RuleSet.Laws.{lsearch-cons}
use choose_cut.Redund.{max_pri, mark_against, mark, keep, remove_redund}

-- A rule that is in use has not the priority that serves as a mark.
abbrev pub IsLive : Rule → Type 0
IsLive r = r.pri ≢ max_pri

abbrev pub Apart : List Rule → Rule → Type 0
Apart seen r = All (λ s. rule_contained s r ≡ false) seen

-- One of the rules matches the flow.
abbrev pub some_matches : List Rule → Flow → Bool
some_matches [] f = false
some_matches (s ∷ seen) f = matches s f || some_matches seen f

-- A rule keeps its place if none before it contains it; or it is marked, and then whatever flow
-- it matches is matched before it.
abbrev pub Marked : List Rule → Rule → Rule → Type 0
Marked seen r r' =
    ((r' ≡ r) × Apart seen r)
    ⊎ ((r' ≡ record r { pri = max_pri })
        × ((f : Flow) → matches r f ≡ true → some_matches seen f ≡ true))

mark_against-mark :
    (seen : List Rule) (r : Rule)
    → mark_against seen (record r { pri = max_pri }) ≡ record r { pri = max_pri }
unfolding mark_against
mark_against-mark [] r = refl
mark_against-mark (s ∷ seen) r = elim (Bool-cases (rule_contained s r)) [
  | inl c ↦ rw (rule_contained-pri, c) (mark_against-mark seen r)
  | inr c ↦ rw (rule_contained-pri, c) (mark_against-mark seen r)
]

pub mark_against-Marked : (seen : List Rule) (r : Rule) → Marked seen r (mark_against seen r)
unfolding mark_against
mark_against-Marked [] r = inl (refl, tt)
mark_against-Marked (s ∷ seen) r = elim (Bool-cases (rule_contained s r)) [
  | inl c ↦
      rw c (inr (mark_against-mark seen r, λ f m. ground (arith, rule_contained-matches s r f c m)))
  | inr c ↦ rw c (elim (mark_against-Marked seen r) [
    | inl (e, apart) ↦ inl (e, (refl, apart))
    | inr (e, before) ↦ inr (e, λ f m. ground (arith, before f m))
  ])
]

matches-mark_against :
    (seen : List Rule) (r : Rule) (f : Flow) → matches (mark_against seen r) f ≡ matches r f
matches-mark_against seen r f = elim (mark_against-Marked seen r) [
  | inl (e, _) ↦ ap (λ t. matches t f) e
  | inr (e, _) ↦ rw e (matches-pri r max_pri f)
]

some_matches-append :
    (xs : List Rule) (y : Rule) (f : Flow)
    → some_matches (xs ++ (y ∷ [])) f ≡ (some_matches xs f || matches y f)
some_matches-append [] y f = ground arith
some_matches-append (x ∷ xs) y f = ground (arith, some_matches-append xs y f)

-- One cell of the second loop, where the cells behind it find what the rest of the set does.
lsearch-keep :
    (seen : List Rule) (r r' : Rule) (rs marked : List Rule) (f : Flow)
    → IsLive r
    → some_matches seen f ≡ false
    → Marked seen r r'
    → (matches r f ≡ false → lsearch (keep marked) f ≡ lsearch rs f)
    → lsearch (keep (r' ∷ marked)) f ≡ lsearch (r ∷ rs) f
unfolding keep
lsearch-keep seen r r' rs marked f live clear (inl (e, apart)) ih =
    let kept : (r.pri == max_pri) ≡ false = ground arith in
    rw (e, kept) (ground (arith, lsearch-cons r rs f, lsearch-cons r (keep marked) f, ih))
lsearch-keep seen r r' rs marked f live clear (inr (e, before)) ih =
    rw e (ground (arith, lsearch-cons r rs f, before f, ih))

lsearch-keep-mark :
    (seen rs : List Rule) (f : Flow)
    → All IsLive rs
    → some_matches seen f ≡ false
    → lsearch (keep (mark seen rs)) f ≡ lsearch rs f
unfolding mark
lsearch-keep-mark seen [] f live clear = unfold keep in refl
lsearch-keep-mark seen (r ∷ rs) f live clear =
    let r' = mark_against seen r in
    lsearch-keep seen r r' rs (mark (seen ++ (r' ∷ [])) rs) f live.0 clear
      (mark_against-Marked seen r)
      λ miss.
        lsearch-keep-mark (seen ++ (r' ∷ [])) rs f live.1
          (ground (arith, some_matches-append seen r' f, matches-mark_against seen r f))

-- Of a set that is not empty, with no priority equal to the mark, remove_redund leaves a set in
-- which every flow finds the same priority.
pub lsearch-remove_redund :
    (r : Rule) (rs : List Rule) (f : Flow)
    → All IsLive (r ∷ rs)
    → (out : List Rule) × (remove_redund (r ∷ rs) ≡ some out) × (lsearch out f ≡ lsearch (r ∷ rs) f)
unfolding remove_redund
lsearch-remove_redund r rs f live = (
  r ∷ keep (mark (r ∷ []) rs),
  refl,
  ground (
    arith,
    lsearch-cons r rs f,
    lsearch-cons r (keep (mark (r ∷ []) rs)) f,
    lsearch-keep-mark (r ∷ []) rs f live.1,
  ),
)
