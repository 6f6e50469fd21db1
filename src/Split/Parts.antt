-- ===== src/Split/Parts.antt =====
-- What the loop of `_split_cut_1d` stores, and when its assertions hold.
use mathlib.Core.List.{append_assoc, append-nil}
use choose_cut.Base.{ℕ, ◌+◌, ◌≤◌, ◌<◌, ◌≡◌, refl, arith, ◌⊎◌, ◌↔◌, inl, inr, ◌&&◌, none, some}
use choose_cut.Base.{
  List, [], ◌∷◌, ◌++◌, ltb, leb, if◌then◌else◌, length, length-append, Bool-cases,
}
use choose_cut.Rule.{Range, Rule}
use choose_cut.Ranges.{Range1d}
use choose_cut.RuleSet.{RuleSet, num, append_rules}
use choose_cut.RuleSet.Clip.{Holds, IsPart, update-IsClipped}
use choose_cut.Split.{reaches, trim, trim_rule, push_half, split_rules_1d}

-- The rules that reach into the half, trimmed to it, in their order.
unfoldable pub part : ℕ → Range1d → List Rule → List Rule
part dim half [] = []
part dim half (rule ∷ rules) =
    let rest = part dim half rules in
    if reaches (rule.range dim) half then trim_rule dim half rule ∷ rest else rest

-- The set with these rules behind the others.
abbrev pub with_rules : RuleSet → List Rule → RuleSet
with_rules s rules = record s { list = s.list ++ rules }

module _ (dim : ℕ) (half : Range1d) where
  part-cons :
      (rule : Rule) (rules : List Rule)
      → part dim half (rule ∷ rules) ≡ part dim half (rule ∷ []) ++ part dim half rules
  unfolding part
  part-cons rule rules = elim (Bool-cases (reaches (rule.range dim) half)) [
    | inl e ↦ rw e
    | inr e ↦ rw e
  ]

  abbrev Pushed : Rule → RuleSet → Type 0
  Pushed rule s =
      (push_half dim half rule s ≡ some (with_rules s (part dim half (rule ∷ []))))
      × (num s + length (part dim half (rule ∷ [])) ≤ s.cap)

  push_half-cases :
      (rule : Rule) (s : RuleSet)
      → num s ≤ s.cap
      → Pushed rule s
        ⊎ ((push_half dim half rule s ≡ none)
            × (s.cap < num s + length (part dim half (rule ∷ []))))
  unfolding push_half part append_rules
  push_half-cases rule s fits = elim (Bool-cases (reaches (rule.range dim) half)) [
    | inr e ↦ rw e (inl (rw append-nil, omega arith))
    | inl e ↦ rw e (elim (Bool-cases (ltb (num s) s.cap)) [
      | inl room ↦ rw room (inl (refl, ground arith))
      | inr full ↦ rw full (inr (refl, ground arith))
    ])
  ]

  with_rules-cons :
      (rule : Rule) (rules : List Rule) (s : RuleSet)
      → with_rules (with_rules s (part dim half (rule ∷ []))) (part dim half rules)
        ≡ with_rules s (part dim half (rule ∷ rules))
  with_rules-cons rule rules s = rw (part-cons rule rules, append_assoc)

  num-with_rules-cons :
      (rule : Rule) (rules : List Rule) (s : RuleSet)
      → num (with_rules s (part dim half (rule ∷ []))) + length (part dim half rules)
        ≡ num s + length (part dim half (rule ∷ rules))
  num-with_rules-cons rule rules s =
      rw (part-cons rule rules, length-append, length-append) (omega arith)

pub split_rules_1d-part :
    (ors : List Rule) (dim : ℕ) (left right : Range1d) (lrs rrs : RuleSet)
    → num lrs ≤ lrs.cap
    → num rrs ≤ rrs.cap
    → split_rules_1d ors dim left right lrs rrs ≡ (
        if leb (num lrs + length (part dim left ors)) lrs.cap
          && leb (num rrs + length (part dim right ors)) rrs.cap
        then some (with_rules lrs (part dim left ors), with_rules rrs (part dim right ors))
        else none)
unfolding split_rules_1d
split_rules_1d-part [] dim left right lrs rrs lfits rfits =
    unfold part in rw (append-nil, append-nil) (ground arith)
split_rules_1d-part (rule ∷ ors) dim left right lrs rrs lfits rfits =
    elim (push_half-cases dim left rule lrs lfits) [
      | inr (e, full) ↦ rw e (
          ground (
            arith,
            num-with_rules-cons dim left rule ors lrs,
            length-append lrs.list (part dim left (rule ∷ [])),
          ))
      | inl (e, room) ↦ elim (push_half-cases dim right rule rrs rfits) [
        | inr (e', full) ↦
            rw (e, e')
              (ground (
                arith,
                num-with_rules-cons dim right rule ors rrs,
                length-append rrs.list (part dim right (rule ∷ [])),
              ))
        | inl (e', room') ↦
            rw
              (
                e,
                e',
                ← num-with_rules-cons dim left rule ors lrs,
                ← num-with_rules-cons dim right rule ors rrs,
                ← with_rules-cons dim left rule ors lrs,
                ← with_rules-cons dim right rule ors rrs,
              )
              (split_rules_1d-part ors dim left right (with_rules lrs (part dim left (rule ∷ [])))
                (with_rules rrs (part dim right (rule ∷ []))) (rw length-append room)
                (rw length-append room'))
      ]
    ]

-- The numbers of a half.
abbrev pub as_range : Range1d → Range
as_range half = record { low = half.low; high = half.high }

trim-Holds :
    (r : Range) (half : Range1d) (x : ℕ)
    → Holds (trim r half) x ↔ (Holds r x × Holds (as_range half) x)
trim-Holds r half x = ground arith

pub part-IsPart :
    (dim : ℕ) (half : Range1d) (rules : List Rule)
    → IsPart dim (as_range half) rules (part dim half rules)
unfolding part
part-IsPart dim half [] = refl
part-IsPart dim half (r ∷ rules) = elim (Bool-cases (reaches (r.range dim) half)) [
  | inr miss ↦ rw (miss, part) (inl (λ meets. ground arith, part-IsPart dim half rules))
  | inl hit ↦
      rw (hit, part)
        (inr (
          (ground arith, ground arith),
          (
            trim_rule dim half r,
            part dim half rules,
            refl,
            update-IsClipped dim (as_range half) r (trim (r.range dim) half)
                (trim-Holds (r.range dim) half),
            part-IsPart dim half rules,
          ),
        ))
]

-- On sets that hold no more than they have room for: there is for each half a list of the rules whose range in
-- the dimension begins not behind the half and ends not before it, each with just its numbers in the half
-- left there and the rest of it unchanged, in their order. `_split_cut_1d` fails an assertion exactly if
-- one of the sets has no room for the list of its half, and otherwise it stores in each set that list behind what is there.
pub split_rules_1d-IsPart :
    (ors : List Rule) (dim : ℕ) (left right : Range1d) (lrs rrs : RuleSet)
    → num lrs ≤ lrs.cap
    → num rrs ≤ rrs.cap
    → (lefts : List Rule) × (rights : List Rule) × IsPart dim (as_range left) ors lefts
      × IsPart dim (as_range right) ors rights
      × (split_rules_1d ors dim left right lrs rrs ≡ (
          if leb (num lrs + length lefts) lrs.cap && leb (num rrs + length rights) rrs.cap
          then some (with_rules lrs lefts, with_rules rrs rights)
          else none))
split_rules_1d-IsPart ors dim left right lrs rrs lfits rfits = (
  part dim left ors,
  part dim right ors,
  part-IsPart dim left ors,
  part-IsPart dim right ors,
  split_rules_1d-part ors dim left right lrs rrs lfits rfits,
)
