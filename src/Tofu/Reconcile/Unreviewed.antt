-- ===== src/Tofu/Reconcile/Unreviewed.antt =====
-- What a verdict of `Reconcile` in internal/tofu/reconcile.go means, stated by the observations and by
-- the entries of the allowlist.
use planless.Prelude.{
  ℕ, ◌≡◌, ◌↔◌, refl, sym, ap, ◌∙◌, String, Bool, true, false, not, ◌&&◌, ◌||◌, Option, none, some,
  List, [], ◌∷◌, if◌then◌else◌, ◌=?◌, ◌==◌, any, keep, length, map, any-keep, All, Has, here, there,
  Bool-cases, Option-cases, inl, inr, arith, text_eq→eq, eq→text_eq,
}
use planless.Prelude.Text.{text_ltb}
use planless.Ordered.Membership.{any-sort}
use planless.Netset.{NetSet, parse, contains}
use planless.Netset.Ip.{v4}
use planless.Netset.Coverage.{InCidr, contains-parse}
use planless.Tofu.Reconcile.{
  verdict_pass, verdict_fail, Observation, Entry, Reconciliation, is_anonymous, resource_of,
  public_scan, sort_strings, public_entries, observed_before, sort_observations, is_public,
  reachable_resources, listed, reconcile,
}

-- The address of `probe_address`.
abbrev pub probe : ℕ
probe = 3325256754

-- The entry names the resource and reaches the probe; a bucket does so for everybody alone.
pub record Reviews (resource : String) (e : Entry) : Type 0 where
  pub named : resource_of e ≡ resource
  pub reaches : Has (InCidr probe) e.sources
  pub for_everybody : e.kind ≡ "bucket" → is_anonymous e.principals ≡ true

any-map :
    (f : String → Bool) (l : List Observation)
    → any f (map (λ o. o.resource) l) ≡ any (λ o. f o.resource) l
any-map f [] = refl
any-map f (o ∷ l) = ap (λ (b : Bool). f o.resource || b) (any-map f l)

none_kept : (f : String → Bool) (l : List String) → (length (keep f l) =? 0) ≡ not (any f l)
none_kept f [] = refl
none_kept f (x ∷ l) = elim (Bool-cases (f x)) [
  | inl e ↦ rw e (ground arith)
  | inr e ↦ rw e (none_kept f l)
]

-- The resources that the scan of the entries gives, one resource at a time.
scan_step :
    (e : Entry) (set : NetSet) (out : List String) (v : String)
    → any
        (λ x. x == v)
        (if not (contains (some set) (v4 probe))
          then out
          else if e.kind == "bucket" && not (is_anonymous e.principals)
          then out
          else resource_of e ∷ out)
      ≡ ((contains (some set) (v4 probe)
            && not (e.kind == "bucket" && not (is_anonymous e.principals))
            && (resource_of e == v))
          || any (λ x. x == v) out)
scan_step e set out v = elim (Bool-cases (contains (some set) (v4 probe))) [
  | inr c ↦ rw c refl
  | inl c ↦ elim (Bool-cases (e.kind == "bucket" && not (is_anonymous e.principals))) [
    | inl k ↦ rw c (rw k refl)
    | inr k ↦ rw c (rw k refl)
  ]
]

one_entry :
    (e : Entry) (set : NetSet) (v : String)
    → parse e.sources ≡ some set
    → ((contains (some set) (v4 probe)
          && not (e.kind == "bucket" && not (is_anonymous e.principals))
          && (resource_of e == v))
        ≡ true)
      ↔ Reviews v e
one_entry e set v p =
    let (to, from) = contains-parse e.sources set probe p in
    (
      λ h. record {
        named = text_eq→eq (ground (arith, h));
        reaches = to (ground (arith, h));
        for_everybody =
            λ k. let t : (e.kind == "bucket") ≡ true = eq→text_eq k in ground (arith, h, t);
      },
      λ r.
          let c = from r.reaches in
          let n : (resource_of e == v) ≡ true = eq→text_eq r.named in
          elim (Bool-cases (e.kind == "bucket")) [
            | inl k ↦ let a = r.for_everybody (text_eq→eq k) in rw c (rw k (rw a n))
            | inr k ↦ rw c (rw k n)
          ],
    )

-- A test on a list's head or on its tail, as a property of some element.
head_or_tail :
    (P : Entry → Type 0) (e : Entry) (rest : List Entry) (b x y : Bool)
    → b ≡ (x || y)
    → (x ≡ true) ↔ P e
    → (y ≡ true) ↔ Has P rest
    → (b ≡ true) ↔ Has P (e ∷ rest)
head_or_tail P e rest b x y h one more = (to, from)
  where
    to : b ≡ true → Has P (e ∷ rest)
    to t = elim (Bool-cases x) [
      | inl k ↦ here (one.0 k)
      | inr k ↦ there (more.0 (ground (arith, h, t, k)))
    ]

    from : Has P (e ∷ rest) → b ≡ true
    from (here p) = ground (arith, h, one.1 p)
    from (there u) = ground (arith, h, more.1 u)

pub public_scan_lem :
    (entries : List Entry) (out : List String) (v : String)
    → public_scan entries probe ≡ some out
    → (listed out v ≡ true) ↔ Has (Reviews v) entries
unfolding public_scan
public_scan_lem [] out v h =
    let p : [] ≡ out = cc h in (λ t. absurd (cc (rw (← p) at t)), λ u. elim u [ ])
public_scan_lem (e ∷ rest) out v h = elim (Option-cases (parse e.sources)) [
  | inl n ↦ absurd (cc (rw (n, public_scan) at h))
  | inr (set, p) ↦ elim (Option-cases (public_scan rest probe)) [
    | inl n ↦ absurd (cc (rw n at (rw (p, public_scan) at h)))
    | inr (more, m) ↦
        let ih = public_scan_lem rest more v m in
        let one = one_entry e set v p in
        let is = rw m at (rw (p, public_scan) at h) in
        head_or_tail (Reviews v) e rest (listed out v) _ (listed more v)
          (sym (ap (λ (x : Option (List String)). elim x [ none ↦ false | some l ↦ listed l v ]) is)
            ∙ scan_step e set more v)
          one ih
  ]
]

-- The verdict, as one test on the observations.
passes_lem :
    (os : List Observation) (allowed : List String)
    → (length (
          keep
            (λ r. not (listed allowed r))
            (sort_strings (reachable_resources (sort_observations os))))
        =? 0)
      ≡ not (any (λ o. is_public o && not (listed allowed o.resource)) os)
unfolding sort_observations
passes_lem os allowed =
    let out : String → Bool = λ r. not (listed allowed r) in
    none_kept out (sort_strings (reachable_resources (sort_observations os)))
    ∙ ap not (
        any-sort out text_ltb (reachable_resources (sort_observations os))
        ∙ any-map out (keep is_public (sort_observations os))
        ∙ any-keep (λ (o : Observation). out o.resource) is_public (sort_observations os)
        ∙ any-sort (λ (o : Observation). is_public o && out o.resource) observed_before os)

reviewed_test :
    (os : List Observation) (entries : List Entry) (allowed : List String)
    → ((v : String) → (listed allowed v ≡ true) ↔ Has (Reviews v) entries)
    → (not (any (λ o. is_public o && not (listed allowed o.resource)) os) ≡ true)
      ↔ All (λ o. is_public o ≡ true → Has (Reviews o.resource) entries) os
reviewed_test [] entries allowed r = (λ _. tt, λ _. refl)
reviewed_test (o ∷ os) entries allowed r =
    let ih = reviewed_test os entries allowed r in
    (
      λ h. (λ p. (r o.resource).0 (ground (arith, h, p)), ih.0 (ground (arith, h))),
      λ u. elim (Bool-cases (is_public o)) [
        | inl p ↦ ground (arith, p, (r o.resource).1 (u.0 p), ih.1 u.1)
        | inr p ↦ ground (arith, p, ih.1 u.1)
      ],
    )

entries_reviewed :
    (entries : List Entry) (allowed : List String)
    → public_entries entries ≡ some allowed
    → (v : String) → (listed allowed v ≡ true) ↔ Has (Reviews v) entries
unfolding public_entries
entries_reviewed entries allowed h v = elim (Bool-cases (length entries =? 0)) [
  | inl z ↦ absurd (cc (rw (z, public_entries) at h))
  | inr z ↦ elim (Option-cases (public_scan entries probe)) [
    | inl n ↦ absurd (cc (rw n at (rw (z, public_entries) at h)))
    | inr (out, o) ↦
        let is : some (sort_strings out) ≡ some allowed = rw o at (rw (z, public_entries) at h) in
        let same : allowed ≡ sort_strings out = cc is in
        let listing : listed allowed v ≡ listed out v =
          ap (λ (l : List String). listed l v) same
          ∙ any-sort (λ (x : String). x == v) text_ltb out in
        let (to, from) = public_scan_lem entries out v o in
        (λ t. to (sym listing ∙ t), λ u. listing ∙ from u)
  ]
]

verdict_lem : (b : Bool) → ((if b then verdict_pass else verdict_fail) ≡ "PASS") ↔ (b ≡ true)
verdict_lem true = (λ _. refl, λ _. refl)
verdict_lem false =
    let differ : (verdict_fail == "PASS") ≡ false = refl in
    (λ p. absurd (cc (eq→text_eq p, differ)), λ p. absurd (cc p))

-- A reconciliation that gives a verdict passes exactly when every resource that was reached from
-- the public segment is named by an entry of the allowlist that holds the probe's address in a
-- source range and, for a bucket, is for everybody.
pub reconcile_passes_iff :
    (os : List Observation) (entries : List Entry) (expected : String) (r : Reconciliation)
    → reconcile os entries expected ≡ some r
    → (r.verdict ≡ "PASS") ↔ All (λ o. is_public o ≡ true → Has (Reviews o.resource) entries) os
unfolding reconcile
reconcile_passes_iff os entries expected r h = elim (Option-cases (public_entries entries)) [
  | inl n ↦ absurd (cc (rw (n, reconcile) at h))
  | inr (allowed, a) ↦
      let is = rw (a, reconcile) at h in
      let test : Bool = not (any (λ o. is_public o && not (listed allowed o.resource)) os) in
      let verdict : r.verdict ≡ (if test then verdict_pass else verdict_fail) =
        sym (ap (λ (x : Option Reconciliation). elim x [ none ↦ "" | some y ↦ y.verdict ]) is)
        ∙ ap (λ (b : Bool). if b then verdict_pass else verdict_fail) (passes_lem os allowed) in
      let (to, from) = reviewed_test os entries allowed (entries_reviewed entries allowed a) in
      let (to_test, of_test) = verdict_lem test in
      (λ p. to (to_test (sym verdict ∙ p)), λ u. verdict ∙ of_test (from u))
]
