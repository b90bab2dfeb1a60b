-- ===== src/Ordered.antt =====
-- Lists that are kept in the order of a key: Go's `sort.Slice` with a less function, and `upsert`
-- of internal/platform/store.go. `Order` is the interface: a less function, the test for the same
-- key, and their laws.
pub mod Keys
pub mod Sorting
pub mod Lookup
pub mod Membership
pub mod Extension
use planless.Prelude.{◌≡◌, Bool, true, false, List, [], ◌∷◌, if◌then◌else◌}

pub record Order {ℓ} (A : Type ℓ) : Type ℓ where
  pub less : A → A → Bool
  pub same : A → A → Bool
  pub same_refl : (a : A) → same a a ≡ true
  pub same_sym : (a b : A) → same a b ≡ true → same b a ≡ true
  pub same_trans : (a b c : A) → same a b ≡ true → same b c ≡ true → same a c ≡ true
  pub less_trans : (a b c : A) → less a b ≡ true → less b c ≡ true → less a c ≡ true
  pub less_total : (a b : A) → less a b ≡ false → less b a ≡ false → same a b ≡ true
  pub less-ne-same : (a b : A) → less a b ≡ true → same a b ≡ false

module _ {ℓ} {A : Type ℓ} where
  unfoldable pub insert : (A → A → Bool) → A → List A → List A
  insert less a [] = a ∷ []
  insert less a (b ∷ bs) = if less b a then b ∷ insert less a bs else a ∷ b ∷ bs

  -- `sort.Slice`. Up to twelve elements Go sorts by insertion too; above that its result is the same
  -- where no two keys are equal.
  unfoldable pub sort : (A → A → Bool) → List A → List A
  unfolding insert
  sort less [] = []
  sort less (a ∷ rest) = insert less a (sort less rest)

  -- `upsert`: the first element with the key of `v` is replaced, or `v` is appended.
  unfoldable pub upsert : List A → A → (A → A → Bool) → List A
  upsert [] v same = v ∷ []
  upsert (a ∷ rest) v same = if same a v then v ∷ rest else a ∷ upsert rest v same
