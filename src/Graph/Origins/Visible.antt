-- ===== src/Graph/Origins/Visible.antt =====
-- `originOf` of internal/graph/provenance.go names the least visible of the contributions.
use planless.Prelude.{
  ℕ, String, ◌≡◌, ◌≤◌, ◌≢◌, ◌⊎◌, inl, inr, Option, none, some, List, [], ◌∷◌, ltb, Bool-cases, All,
  Has, here, there, ap, refl, subst, sym, arith,
}
use planless.Json.{Json}
use planless.Graph.{Contribution, Provenance}
use planless.Graph.Origins.{
  Decode, ConfigIndex, ModuleCall, Expression, visibility, closer, least_visible, decided_by,
  contributors_of, origin_of,
}

-- The contribution is no more visible than `c`.
abbrev pub IsBelow : ℕ → Contribution → Type 0
IsBelow n c = n ≤ visibility c.origin

-- The two results of the test, each no more visible than what it is compared with.
closer-cases :
    (p c : Contribution)
    → ((closer p c ≡ c) × (visibility c.origin ≤ visibility p.origin))
      ⊎ ((closer p c ≡ p) × (visibility p.origin ≤ visibility c.origin))
unfolding closer
closer-cases p c = elim (Bool-cases (ltb (visibility c.origin) (visibility p.origin))) [
  | inl e ↦ inl (ground (arith, e), ground (arith, e))
  | inr e ↦ inr (ground (arith, e), ground (arith, e))
]

least_visible-IsBelow :
    (p : Contribution) (l : List Contribution)
    → All (IsBelow (visibility (least_visible p l).origin)) (p ∷ l)
unfolding least_visible
least_visible-IsBelow p [] = (omega arith, tt)
least_visible-IsBelow p (c ∷ rest) = elim (closer-cases p c) [
  | inl (e, w) ↦
      subst (Below p c) (sym e) (let h = least_visible-IsBelow c rest in (at_least w h.0, h))
  | inr (e, w) ↦
      subst (Below p c) (sym e)
        (let h = least_visible-IsBelow p rest in (h.0, (at_least w h.0, h.1)))
]
  where
    at_least : {k m n : ℕ} → m ≤ n → k ≤ m → k ≤ n
    at_least w h = omega arith

    Below : Contribution → Contribution → Contribution → Type 0
    Below p c q = All (IsBelow (visibility (least_visible q rest).origin)) (p ∷ c ∷ rest)

skip_second :
    {P : Contribution → Type 0} {a b : Contribution} {l : List Contribution}
    → Has P (a ∷ l)
    → Has P (a ∷ b ∷ l)
skip_second (here h) = here h
skip_second (there h) = there (there h)

least_visible-Has :
    (p : Contribution) (l : List Contribution) → Has (λ c. c ≡ least_visible p l) (p ∷ l)
unfolding least_visible
least_visible-Has p [] = here refl
least_visible-Has p (c ∷ rest) = elim (closer-cases p c) [
  | inl (e, _) ↦ rw e (there (least_visible-Has c rest))
  | inr (e, _) ↦ rw e (skip_second (least_visible-Has p rest))
]

-- What a contribution and a provenance have in common: the origin and the reference that decided it.
abbrev pub Names : Provenance → Contribution → Type 0
Names p c = (c.origin ≡ p.origin) × (c.reference ≡ p.reference)

names :
    {p : Contribution} {l : List Contribution}
    → Has (λ c. c ≡ p) l
    → Has (λ c. (c.origin ≡ p.origin) × (c.reference ≡ p.reference)) l
names (here h) =
    here (ap (λ (c : Contribution). c.origin) h, ap (λ (c : Contribution). c.reference) h)
names (there h) = there (names h)

decided_by-Names :
    (refs : List String) (c : Contribution) (l : List Contribution)
    → All (IsBelow (visibility (decided_by refs (c ∷ l)).origin)) (c ∷ l)
      × Has (Names (decided_by refs (c ∷ l))) (c ∷ l)
decided_by-Names [] c [] = ((omega arith, tt), here (refl, refl))
decided_by-Names (ref ∷ refs) c [] = ((omega arith, tt), here (refl, refl))
decided_by-Names [] c (d ∷ l) =
    (least_visible-IsBelow c (d ∷ l), names (least_visible-Has c (d ∷ l)))
decided_by-Names (ref ∷ refs) c (d ∷ l) =
    (least_visible-IsBelow c (d ∷ l), names (least_visible-Has c (d ∷ l)))

-- The origin of an expression that is no constant and refers to variables is named by the origin
-- and the reference of one of their contributions, and none of them is less visible.
pub origin_of-Names :
    (decode : Decode) (idx : ConfigIndex) (call : Option ModuleCall) (raw : Json)
    (expr : Expression)
    → decode.expression raw ≡ some expr
    → expr.constant_value ≡ none
    → contributors_of decode idx call expr.references ≢ []
    → All
        (IsBelow (visibility (origin_of decode idx (some raw) call).origin))
        (contributors_of decode idx call expr.references)
      × Has
          (Names (origin_of decode idx (some raw) call))
          (contributors_of decode idx call expr.references)
unfolding origin_of
origin_of-Names decode idx call raw expr read open_value some_variable =
    subst Named (sym decided)
      (by_list (contributors_of decode idx call expr.references) some_variable)
  where
    Named : Provenance → Type 0
    Named p =
        All (IsBelow (visibility p.origin)) (contributors_of decode idx call expr.references)
        × Has (Names p) (contributors_of decode idx call expr.references)

    decided :
        origin_of decode idx (some raw) call
        ≡ decided_by expr.references (contributors_of decode idx call expr.references)
    decided = rw (read, origin_of) (rw open_value refl)

    by_list :
        (l : List Contribution)
        → l ≢ []
        → All (IsBelow (visibility (decided_by expr.references l).origin)) l
          × Has (Names (decided_by expr.references l)) l
    by_list [] h = absurd (h refl)
    by_list (c ∷ l) h = decided_by-Names expr.references c l
