-- ===== src/Tofu/Pipeline/Keeps.antt =====
-- Triples for the steps of a run: what holds before a step, what holds where it ends with a value, and
-- what holds where it ends with an error.
use planless.Prelude.{
  ◌⊎◌, inl, inr, ◌≡◌, refl, Bool, true, false, Option, none, some, if◌then◌else◌, String, List, ℕ,
}
use planless.Tofu.Approval.{Files}
use planless.Tofu.Transcript.{Transcript}
use planless.Tofu.Pipeline.{
  Run, Step, continue, ◌>>=◌, done, raise, lift, gets, read_file, note, set_files,
}

abbrev pub Ends :
    {W A : Type 0} → (A → Run W → Type 0) → (Run W → Type 0) → Run W × Option A → Type 0
Ends Q E (s, none) = E s
Ends Q E (s, some a) = Q a s

pub record Holds {W A : Type 0} (P : Run W → Type 0) (m : Step W A) (Q : A → Run W → Type 0)
    (E : Run W → Type 0) : Type 0 where
  pub at : (s : Run W) → P s → Ends Q E (m s)

-- `m` keeps `P`, whether it ends with a value or with an error.
abbrev pub Keeps : {W A : Type 0} → (Run W → Type 0) → Step W A → Type 0
Keeps P m = Holds P m (λ _. P) P

module _ {W : Type 0} where
  continue-Ends :
      {A B : Type 0} (Q : A → Run W → Type 0) (R : B → Run W → Type 0) (E : Run W → Type 0)
      (f : A → Step W B)
      → ((a : A) → Holds (Q a) (f a) R E)
      → (e : Run W × Option A) → Ends Q E e
      → Ends R E (continue f e)
  continue-Ends Q R E f k (s, none) h = h
  continue-Ends Q R E f k (s, some a) h = (k a).at s h

  pub Holds-bind :
      {A B : Type 0} {P : Run W → Type 0} (Q : A → Run W → Type 0) {R : B → Run W → Type 0}
      {E : Run W → Type 0} {m : Step W A} {f : A → Step W B}
      → Holds P m Q E
      → ((a : A) → Holds (Q a) (f a) R E)
      → Holds P (m >>= f) R E
  unfolding ◌>>=◌
  Holds-bind Q {R = R} {E = E} {m = m} {f = f} hm hf = record {
    at = λ s h. continue-Ends Q R E f hf (m s) (hm.at s h);
  }

  weaker :
      {A : Type 0} {Q Q' : A → Run W → Type 0} {E E' : Run W → Type 0}
      → ((a : A) (s : Run W) → Q a s → Q' a s)
      → ((s : Run W) → E s → E' s)
      → (e : Run W × Option A) → Ends Q E e
      → Ends Q' E' e
  weaker q e (s, none) h = e s h
  weaker q e (s, some a) h = q a s h

  -- The weaker claim.
  pub Holds-weaken :
      {A : Type 0} {P : Run W → Type 0} {Q Q' : A → Run W → Type 0} {E E' : Run W → Type 0}
      {m : Step W A}
      → Holds P m Q E
      → ((a : A) (s : Run W) → Q a s → Q' a s)
      → ((s : Run W) → E s → E' s)
      → Holds P m Q' E'
  Holds-weaken {m = m} hm q e = record { at = λ s h. weaker q e (m s) (hm.at s h) }

  -- What is read of a run is known of it afterwards.
  pub Holds-gets :
      {A B : Type 0} {P : Run W → Type 0} {R : B → Run W → Type 0} {E : Run W → Type 0}
      (f : Run W → A) {k : A → Step W B}
      → ((a : A) → Holds (λ r. (f r ≡ a) × P r) (k a) R E)
      → Holds P (gets f >>= k) R E
  unfolding ◌>>=◌ gets
  Holds-gets f hk = record { at = λ s h. (hk (f s)).at s (refl, h) }

  -- The stronger claim before the step.
  pub Holds-pre :
      {A : Type 0} {P P' : Run W → Type 0} {Q : A → Run W → Type 0} {E : Run W → Type 0}
      {m : Step W A}
      → ((r : Run W) → P r → P' r)
      → Holds P' m Q E
      → Holds P m Q E
  Holds-pre p hm = record { at = λ s h. hm.at s (p s h) }

  pub Holds-absurd :
      {A : Type 0} {P : Run W → Type 0} {Q : A → Run W → Type 0} {E : Run W → Type 0} {m : Step W A}
      → ((r : Run W) → P r → ⊥)
      → Holds P m Q E
  Holds-absurd p = record { at = λ s h. absurd (p s h) }

  pub Holds-either :
      {A : Type 0} {P P' : Run W → Type 0} {Q : A → Run W → Type 0} {E : Run W → Type 0}
      {m : Step W A}
      → Holds P m Q E
      → Holds P' m Q E
      → Holds (λ r. P r ⊎ P' r) m Q E
  Holds-either {m = m} hm hm' = record {
    at = λ s h. elim h [ inl p ↦ hm.at s p | inr p ↦ hm'.at s p ];
  }

  pub Holds-if :
      {A : Type 0} {P : Run W → Type 0} {Q : A → Run W → Type 0} {E : Run W → Type 0} (b : Bool)
      {m n : Step W A}
      → (b ≡ true → Holds P m Q E)
      → (b ≡ false → Holds P n Q E)
      → Holds P (if b then m else n) Q E
  Holds-if true hm hn = hm refl
  Holds-if false hm hn = hn refl

  pub Holds-raise :
      {A : Type 0} {P : Run W → Type 0} {Q : A → Run W → Type 0} {E : Run W → Type 0}
      → ((s : Run W) → P s → E s)
      → Holds P (raise {W = W} {A = A}) Q E
  unfolding raise
  Holds-raise k = record { at = k }

  -- What `lift` passes on is what it was given.
  pub Holds-lift :
      {A : Type 0} {P E : Run W → Type 0} (o : Option A)
      → ((s : Run W) → P s → E s)
      → Holds P (lift {W = W} o) (λ a s. (o ≡ some a) × P s) E
  unfolding lift
  Holds-lift none k = record { at = k }
  Holds-lift (some a) k = record { at = λ s h. (refl, h) }

  read_end :
      (P E : Run W → Type 0) (path : String) (s : Run W) (o : Option (List ℕ))
      → s.files path ≡ o
      → (P s → E s)
      → P s
      → Ends (λ content r. (r.files path ≡ some content) × P r) E (s, o)
  read_end P E path s none e k h = k h
  read_end P E path s (some content) e k h = (e, h)

  -- What is read of a file is its content.
  pub Holds-read :
      {P E : Run W → Type 0} (path : String)
      → ((s : Run W) → P s → E s)
      → Holds P (read_file {W = W} path) (λ content s. (s.files path ≡ some content) × P s) E
  unfolding read_file
  Holds-read {P} {E} path k = record { at = λ s h. read_end P E path s (s.files path) refl (k s) h }

  any_end : {A : Type 0} (e : Run W × Option A) → Ends (λ _ _. Unit {0}) (λ _. Unit {0}) e
  any_end (s, none) = tt
  any_end (s, some a) = tt

  -- Nothing is claimed.
  pub Holds-any :
      {A : Type 0} {P : Run W → Type 0} {m : Step W A} → Holds P m (λ _ _. Unit {0}) (λ _. Unit {0})
  Holds-any {m = m} = record { at = λ s h. any_end (m s) }

  pub Holds-done :
      {P Q E : Run W → Type 0} → ((s : Run W) → P s → Q s) → Holds P (done {W = W}) (λ _. Q) E
  unfolding done
  Holds-done k = record { at = k }

  pub Holds-note :
      {P Q E : Run W → Type 0} (f : Transcript → Transcript)
      → ((s : Run W) → P s → Q (record s { transcript = f s.transcript }))
      → Holds P (note {W = W} f) (λ _. Q) E
  unfolding note
  Holds-note f k = record { at = k }

module _ {W : Type 0} {P : Run W → Type 0} where
  pub Keeps-bind :
      {A B : Type 0} {m : Step W A} {f : A → Step W B}
      → Keeps P m
      → ((a : A) → Keeps P (f a))
      → Keeps P (m >>= f)
  Keeps-bind hm hf = Holds-bind (λ _. P) hm hf

  pub Keeps-done : Keeps P (done {W = W})
  unfolding done
  Keeps-done = record { at = λ s h. h }

  pub Keeps-raise : {A : Type 0} → Keeps P (raise {W = W} {A = A})
  unfolding raise
  Keeps-raise = record { at = λ s h. h }

  pub Keeps-lift : {A : Type 0} (o : Option A) → Keeps P (lift {W = W} o)
  unfolding lift
  Keeps-lift none = record { at = λ s h. h }
  Keeps-lift (some a) = record { at = λ s h. h }

  pub Keeps-gets : {A : Type 0} (f : Run W → A) → Keeps P (gets f)
  unfolding gets
  Keeps-gets f = record { at = λ s h. h }

  pub Keeps-read : (path : String) → Keeps P (read_file {W = W} path)
  unfolding read_file
  Keeps-read path = record { at = λ s h. by_content s (s.files path) h }
    where
      by_content : (s : Run W) (o : Option (List ℕ)) → P s → Ends (λ _. P) P (s, o)
      by_content s none h = h
      by_content s (some _) h = h

  pub Keeps-note :
      (f : Transcript → Transcript)
      → ((s : Run W) → P s → P (record s { transcript = f s.transcript }))
      → Keeps P (note {W = W} f)
  unfolding note
  Keeps-note f k = record { at = k }

  pub Keeps-files :
      (files : Files)
      → ((s : Run W) → P s → P (record s { files = files }))
      → Keeps P (set_files {W = W} files)
  unfolding set_files
  Keeps-files files k = record { at = k }

  pub Keeps-if :
      {A : Type 0} (b : Bool) {m n : Step W A}
      → (b ≡ true → Keeps P m)
      → (b ≡ false → Keeps P n)
      → Keeps P (if b then m else n)
  Keeps-if true km kn = km refl
  Keeps-if false km kn = kn refl

pub ruleset keeps_rules = (
  Keeps-bind, Keeps-done, Keeps-raise, Keeps-lift, Keeps-gets, Keeps-read, Keeps-note, Keeps-files,
  Keeps-if,
)
