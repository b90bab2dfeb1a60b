-- ===== src/Platform/Store/Deletion.antt =====
-- `Delete` of internal/platform/store.go, on every kind.
use planless.Prelude.{
  ◌≤◌, ◌≡◌, refl, sym, ap, ◌∙◌, String, Bool, true, false, not, List, [], ◌∷◌, if◌then◌else◌, ◌=?◌,
  ◌==◌, Bool-cases, inl, inr, arith, keep, any, length, Option, none, some, text_eq→eq,
}
use planless.Prelude.Text.{cut}
use planless.Ordered.Sorting.{keep-IsSorted}
use planless.Platform.Model.{State, Bucket, Grant, NetworkRule, Workload, Object}
use planless.Platform.Store.{Store, is_object, finish, delete}
use planless.Platform.Store.Orders.{
  bucket_order, object_order, grant_order, workload_order, rule_order,
}
use planless.Platform.Store.WellFormed.{IsOrdered, IsWellFormed, normalize_of_IsOrdered}

-- There is a resource of this kind and identity.
unfoldable pub holds : String → String → State → Bool
unfolding cut
holds kind id st =
    if kind == "bucket"
    then any (λ b. b.name == id) st.buckets
    else if kind == "grant"
    then any (λ g. g.id == id) st.grants
    else if kind == "network_rule"
    then any (λ r. r.id == id) st.network_rules
    else if kind == "workload"
    then any (λ w. w.name == id) st.workloads
    else if kind == "object"
    then elim (cut b'/' id) [
      | none ↦ false
      | some (bucket, key) ↦ any (is_object bucket key) st.objects
    ]
    else false

module _ {ℓ} {A : Type ℓ} (p : A → Bool) where
  length-keep-le : (l : List A) → length (keep (λ a. not (p a)) l) ≤ length l
  length-keep-le [] = omega arith
  length-keep-le (a ∷ l) = ground (arith, length-keep-le l)

  -- The length test of `Delete` tells whether something was removed.
  pub length-keep : (l : List A) → (length (keep (λ a. not (p a)) l) =? length l) ≡ not (any p l)
  length-keep [] = refl
  length-keep (a ∷ l) = ground (arith, length-keep l, length-keep-le l)

  pub keep_all : (l : List A) → any p l ≡ false → keep (λ a. not (p a)) l ≡ l
  keep_all [] h = refl
  keep_all (a ∷ l) h = ground (arith, keep_all l)

  pub any-keep_none : (l : List A) → any p (keep (λ a. not (p a)) l) ≡ false
  any-keep_none [] = refl
  any-keep_none (a ∷ l) = ground (arith, any-keep_none l)

-- The kinds that `Delete` knows.
pub data KindCase (kind : String) : Type 0 where
  bucket : kind ≡ "bucket" → KindCase kind
  grant : kind ≡ "grant" → KindCase kind
  network_rule : kind ≡ "network_rule" → KindCase kind
  workload : kind ≡ "workload" → KindCase kind
  object : kind ≡ "object" → KindCase kind
  other :
      (kind == "bucket") ≡ false
      → (kind == "grant") ≡ false
      → (kind == "network_rule") ≡ false
      → (kind == "workload") ≡ false
      → (kind == "object") ≡ false
      → KindCase kind

pub Kind-cases : (kind : String) → KindCase kind
Kind-cases kind = elim (Bool-cases (kind == "bucket")) [
  | inl e ↦ bucket (text_eq→eq e)
  | inr b ↦ elim (Bool-cases (kind == "grant")) [
    | inl e ↦ grant (text_eq→eq e)
    | inr g ↦ elim (Bool-cases (kind == "network_rule")) [
      | inl e ↦ network_rule (text_eq→eq e)
      | inr n ↦ elim (Bool-cases (kind == "workload")) [
        | inl e ↦ workload (text_eq→eq e)
        | inr w ↦ elim (Bool-cases (kind == "object")) [
          | inl e ↦ object (text_eq→eq e)
          | inr o ↦ other b g n w o
        ]
      ]
    ]
  ]
]

-- What a deletion must do, as one statement about its result.
pub record Deletes (kind id : String) (s : Store) (r : Store × Bool) : Type 0 where
  pub success : r.1 ≡ holds kind id s.state
  pub failure : r.1 ≡ false → r.0 ≡ s
  pub gone : holds kind id r.0.state ≡ false
  pub valid : IsWellFormed r.0
  pub numbers : (r.0.seq ≡ s.seq) × (r.0.state.ledger ≡ s.state.ledger)

module _ (kind id : String) (s : Store) (w : IsWellFormed s) where
  -- A deletion that ends in `finish`, from what is known of the one collection.
  finish-Deletes :
      (st : State) (found unchanged : Bool)
      → unchanged ≡ not found
      → found ≡ holds kind id s.state
      → (found ≡ false → st ≡ s.state)
      → IsOrdered st
      → st.ledger ≡ s.state.ledger
      → holds kind id st ≡ false
      → Deletes kind id s (finish s unchanged st)
  finish-Deletes st true true e f same o l h = absurd (cc e)
  finish-Deletes st true false e f same o l h =
      let n = normalize_of_IsOrdered o in
      record {
        success = f;
        failure = λ x. absurd (cc x);
        gone = rw n h;
        valid = record { ordered = rw n o; bounded = rw n (rw l w.bounded) };
        numbers = (refl, rw n l);
      }
  finish-Deletes st false true e f same o l h =
      let n = same refl in
      record {
        success = f;
        failure = λ x. ap (λ (t : State). record s { state = t }) n;
        gone = h;
        valid = record { ordered = o; bounded = rw l w.bounded };
        numbers = (refl, l);
      }
  finish-Deletes st false false e f same o l h = absurd (cc e)

module _ (kind id : String) (s : Store) (w : IsWellFormed s) where
  delete_bucket : kind ≡ "bucket" → Deletes kind id s (delete kind id s)
  delete_bucket e = rw e (
      let p = λ (x : Bucket). x.name == id in
      unfold delete holds in
      finish-Deletes "bucket" id s w
        (record (s.state) { buckets = keep (λ x. not (p x)) s.state.buckets })
        (any p s.state.buckets)
        (length (keep (λ x. not (p x)) s.state.buckets) =? length s.state.buckets)
        (length-keep p s.state.buckets) refl
        (λ h.
          ap (λ (l : List Bucket). record (s.state) { buckets = l }) (keep_all p s.state.buckets h))
        (assumption (keep-IsSorted bucket_order (λ x. not (p x)) s.state.buckets w.ordered.buckets))
        refl (any-keep_none p s.state.buckets))

  delete_grant : kind ≡ "grant" → Deletes kind id s (delete kind id s)
  delete_grant e = rw e (
      let p = λ (x : Grant). x.id == id in
      unfold delete holds in
      finish-Deletes "grant" id s w
        (record (s.state) { grants = keep (λ x. not (p x)) s.state.grants }) (any p s.state.grants)
        (length (keep (λ x. not (p x)) s.state.grants) =? length s.state.grants)
        (length-keep p s.state.grants) refl
        (λ h.
          ap (λ (l : List Grant). record (s.state) { grants = l }) (keep_all p s.state.grants h))
        (assumption (keep-IsSorted grant_order (λ x. not (p x)) s.state.grants w.ordered.grants))
        refl (any-keep_none p s.state.grants))

  delete_network_rule : kind ≡ "network_rule" → Deletes kind id s (delete kind id s)
  delete_network_rule e = rw e (
      let p = λ (x : NetworkRule). x.id == id in
      unfold delete holds in
      finish-Deletes "network_rule" id s w
        (record (s.state) { network_rules = keep (λ x. not (p x)) s.state.network_rules })
        (any p s.state.network_rules)
        (length (keep (λ x. not (p x)) s.state.network_rules) =? length s.state.network_rules)
        (length-keep p s.state.network_rules) refl
        (λ h.
          ap (λ (l : List NetworkRule). record (s.state) { network_rules = l })
            (keep_all p s.state.network_rules h))
        (assumption
          (keep-IsSorted rule_order (λ x. not (p x)) s.state.network_rules w.ordered.network_rules))
        refl (any-keep_none p s.state.network_rules))

  delete_workload : kind ≡ "workload" → Deletes kind id s (delete kind id s)
  delete_workload e = rw e (
      let p = λ (x : Workload). x.name == id in
      unfold delete holds in
      finish-Deletes "workload" id s w
        (record (s.state) { workloads = keep (λ x. not (p x)) s.state.workloads })
        (any p s.state.workloads)
        (length (keep (λ x. not (p x)) s.state.workloads) =? length s.state.workloads)
        (length-keep p s.state.workloads) refl
        (λ h.
          ap (λ (l : List Workload). record (s.state) { workloads = l })
            (keep_all p s.state.workloads h))
        (assumption
          (keep-IsSorted workload_order (λ x. not (p x)) s.state.workloads w.ordered.workloads))
        refl (any-keep_none p s.state.workloads))

  delete_nothing :
      holds kind id s.state ≡ false
      → delete kind id s ≡ (s, false)
      → Deletes kind id s (delete kind id s)
  delete_nothing h e =
      rw e (record {
        success = sym h;
        failure = λ x. refl;
        gone = h;
        valid = w;
        numbers = (refl, refl);
      })

  object_parts :
      (t : Option (String × String))
      → cut b'/' id ≡ t
      → Deletes "object" id s (delete "object" id s)
  unfolding delete holds
  object_parts none c =
      let h : holds "object" id s.state ≡ false = rw (c, holds) refl in
      let e : delete "object" id s ≡ (s, false) = rw (c, delete) refl in
      rw e (record {
        success = sym h;
        failure = λ x. refl;
        gone = h;
        valid = w;
        numbers = (refl, refl);
      })
  object_parts (some (b, k)) c =
      let l = s.state.objects in
      let rest = keep (λ x. not (is_object b k x)) l in
      let st : State = record (s.state) { objects = rest } in
      let there : holds "object" id s.state ≡ any (is_object b k) l = rw (c, holds) refl in
      let after : holds "object" id st ≡ any (is_object b k) rest = rw (c, holds) refl in
      let e : delete "object" id s ≡ finish s (length rest =? length l) st = rw (c, delete) refl in
      rw e (
        finish-Deletes "object" id s w st (any (is_object b k) l) (length rest =? length l)
          (length-keep (is_object b k) l) (sym there)
          (λ h.
            ap (λ (m : List Object). record (s.state) { objects = m })
              (keep_all (is_object b k) l h))
          (assumption (keep-IsSorted object_order (λ x. not (is_object b k x)) l w.ordered.objects))
          refl (after ∙ any-keep_none (is_object b k) l))

  delete_object : kind ≡ "object" → Deletes kind id s (delete kind id s)
  delete_object e = rw e (object_parts (cut b'/' id) refl)

  delete_other :
      (kind == "bucket") ≡ false
      → (kind == "grant") ≡ false
      → (kind == "network_rule") ≡ false
      → (kind == "workload") ≡ false
      → (kind == "object") ≡ false
      → Deletes kind id s (delete kind id s)
  delete_other b g n v o =
      delete_nothing (unfold holds in rw (b, g, n, v, o) refl)
        (unfold delete in rw (b, g, n, v, o) refl)

  -- On a well-formed store a delete succeeds exactly when the resource is there, on a failure the
  -- store is unchanged, afterwards the resource is gone, and the store is well formed with its
  -- ledger and last number kept.
  pub delete-Deletes : Deletes kind id s (delete kind id s)
  delete-Deletes = elim (Kind-cases kind) [
    | bucket e ↦ delete_bucket e
    | grant e ↦ delete_grant e
    | network_rule e ↦ delete_network_rule e
    | workload e ↦ delete_workload e
    | object e ↦ delete_object e
    | other b g n v o ↦ delete_other b g n v o
  ]
