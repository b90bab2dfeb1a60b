-- ===== src/Containment/Segmented.antt =====
-- The networks and the attachments without a finding are those of the declared topology:
-- `checkNetworks` of internal/containment/compose.go.
use planless.Prelude.{
  String, ◌≡◌, ◌≢◌, ◌↔◌, ◌⊎◌, inl, inr, refl, ap, true, false, not, ◌&&◌, ◌||◌, some, List, [], ◌∷◌,
  map, All, Has, any, ◌==◌, text_eq→eq, eq→text_eq, Bool-cases, Option-cases, text_eq_refl, arith,
  subst,
}
use planless.Containment.Findings.{
  append-nil, append-nil←, concat-nil→, concat-nil←, when-nil→, when-nil←, not-false,
  each_entry-nil→, each_entry-nil←, Has-text, text-Has, lookup-sorted_keys, sorted_keys-lookup,
}
use planless.Containment.{
  network_findings, Config, Network, Service, Map, lookup, has_key, is_some, is_empty, sorted_keys,
  unexpected, expected_subnet, check_segment, check_attachment, check_edge, check_networks,
  check_on, concat, when,
}

-- A segment that is there, is internal and declares its subnet.
pub record Segment (networks : Map Network) (name subnet : String) : Type 0 where
  pub network : Network
  pub present : lookup name networks ≡ some network
  pub is_internal : network.internal ≡ true
  pub is_own : network.external ≡ false
  pub declares : Has (λ s. s ≡ subnet) network.subnets

-- Only the public edge is on both segments, and a service is on a network or has no interface.
pub record Attached (name : String) (s : Service) : Type 0 where
  pub one_side :
      has_key "corp" s.networks ≡ true
      → has_key "internet" s.networks ≡ true
      → name ≡ "controlplane"
  pub on_network : (s.networks ≢ []) ⊎ (s.network_mode ≡ "none")

pub record Edge (services : Map Service) : Type 0 where
  pub service : Service
  pub present : lookup "controlplane" services ≡ some service
  pub on_corp : has_key "corp" service.networks ≡ true
  pub on_internet : has_key "internet" service.networks ≡ true

check_segment→ :
    (m : Map Network) (name subnet : String)
    → check_segment m name subnet ≡ []
    → Segment m name subnet
unfolding check_segment
check_segment→ m name subnet h = elim (Option-cases (lookup name m)) [
  | inl n ↦ absurd (cc (rw (n, check_segment) at h))
  | inr (n, e) ↦
      let both =
        append-nil (when (not n.internal || n.external) _)
          (when (not (any (λ (s : String). s == subnet) n.subnets)) _)
          (rw (e, check_segment) at h) in
      let closed = when-nil→ _ (not n.internal || n.external) (both.0) in
      record {
        network = n;
        present = e;
        is_internal = ground (arith, closed);
        is_own = ground (arith, closed);
        declares = Has-text subnet n.subnets (not-false _ (when-nil→ _ _ (both.1)));
      }
]

check_segment← :
    (m : Map Network) (name subnet : String)
    → Segment m name subnet
    → check_segment m name subnet ≡ []
unfolding check_segment
check_segment← m name subnet h =
    rw (h.present, check_segment)
      (rw h.is_internal (rw h.is_own (rw (text-Has subnet h.network.subnets h.declares) refl)))

check_attachment→ : (name : String) (s : Service) → check_attachment name s ≡ [] → Attached name s
unfolding check_attachment
check_attachment→ name s h =
    let both =
      append-nil
        (when
          (has_key "corp" s.networks
            && has_key "internet" s.networks
            && not (name == "controlplane"))
          _)
        (when (is_empty s.networks && not (s.network_mode == "none")) _) h in
    let one =
      when-nil→ _
        (has_key "corp" s.networks && has_key "internet" s.networks && not (name == "controlplane"))
        (both.0) in
    let on = when-nil→ _ (is_empty s.networks && not (s.network_mode == "none")) (both.1) in
    record {
      one_side = λ a b. text_eq→eq (ground (arith, a, b, one));
      on_network = elim (Bool-cases (s.network_mode == "none")) [
        | inl e ↦ inr (text_eq→eq e)
        | inr e ↦ inl (λ q.
            let empty : is_empty s.networks ≡ true = rw q refl in ground (arith, on, e, empty))
      ];
    }

is_empty-false : {A : Type 0} (l : List A) → l ≢ [] → is_empty l ≡ false
is_empty-false [] n = absurd (n refl)
is_empty-false (a ∷ l) n = refl

check_attachment← : (name : String) (s : Service) → Attached name s → check_attachment name s ≡ []
unfolding check_attachment
check_attachment← name s h =
    let one : (has_key "corp" s.networks
          && has_key "internet" s.networks
          && not (name == "controlplane"))
        ≡ false =
      elim (Bool-cases (has_key "corp" s.networks)) [
        | inr a ↦ rw a refl
        | inl a ↦ elim (Bool-cases (has_key "internet" s.networks)) [
          | inr b ↦ ground (arith, b)
          | inl b ↦ ground (arith, eq→text_eq (h.one_side a b))
        ]
      ] in
    let on : (is_empty s.networks && not (s.network_mode == "none")) ≡ false = elim h.on_network [
      | inl n ↦ rw (is_empty-false s.networks n) refl
      | inr e ↦ ground (arith, eq→text_eq e)
    ] in
    append-nil← (when-nil← _ _ one) (when-nil← _ _ on)

check_edge→ : (m : Map Service) → check_edge m ≡ [] → Edge m
unfolding check_edge
check_edge→ m h = elim (Option-cases (lookup "controlplane" m)) [
  | inl n ↦ absurd (cc (rw (n, check_edge) at h))
  | inr (s, e) ↦
      let both = append-nil (check_on s "corp") (check_on s "internet") (rw (e, check_edge) at h) in
      record {
        service = s;
        present = e;
        on_corp = not-false _ (when-nil→ _ _ (both.0));
        on_internet = not-false _ (when-nil→ _ _ (both.1));
      }
]

check_edge← : (m : Map Service) → Edge m → check_edge m ≡ []
unfolding check_edge
check_edge← m h = rw (h.present, check_edge) (rw h.on_corp (rw h.on_internet refl))

-- The declared topology.
pub record SegmentedConfig (cfg : Config) : Type 0 where
  pub only :
      (name : String) (n : Network)
      → lookup name cfg.networks ≡ some n
      → (name ≡ "corp") ⊎ (name ≡ "internet")
  pub corp : Segment cfg.networks "corp" "10.20.0.0/16"
  pub internet : Segment cfg.networks "internet" "198.51.100.0/24"
  pub attached : (name : String) (s : Service) → lookup name cfg.services ≡ some s → Attached name s
  pub edge : Edge cfg.services

is_some-expected :
    (name : String) → is_some (expected_subnet name) ≡ true → (name ≡ "corp") ⊎ (name ≡ "internet")
is_some-expected name h = elim (Bool-cases (name == "corp")) [
  | inl e ↦ inl (text_eq→eq e)
  | inr e ↦ elim (Bool-cases (name == "internet")) [
    | inl f ↦ inr (text_eq→eq f)
    | inr f ↦ absurd (let no : is_some (expected_subnet name) ≡ false = rw e (rw f refl) in cc)
  ]
]

-- A name among the keys that the loop over the networks lets pass is a declared one.
only→ :
    (name : String) (l : List String)
    → concat (map unexpected l) ≡ []
    → any (λ key. key == name) l ≡ true
    → (name ≡ "corp") ⊎ (name ≡ "internet")
only→ name [] h k = ground (arith, k)
only→ name (key ∷ l) h k =
    let both = append-nil (unexpected key) (concat (map unexpected l)) h in
    elim (Bool-cases (key == name)) [
      | inl e ↦
          let declared =
            is_some-expected key
              (not-false _ (when-nil→ _ (not (is_some (expected_subnet key))) (both.0))) in
          subst (λ n. (n ≡ "corp") ⊎ (n ≡ "internet")) (text_eq→eq e) declared
      | inr e ↦ only→ name l (both.1) (rw e at k)
    ]

expected-is_some :
    (name : String) → (name ≡ "corp") ⊎ (name ≡ "internet") → is_some (expected_subnet name) ≡ true
expected-is_some name (inl e) = rw e refl
expected-is_some name (inr e) = rw e refl

only← :
    (l : List String)
    → ((name : String) → any (λ key. key == name) l ≡ true → (name ≡ "corp") ⊎ (name ≡ "internet"))
    → concat (map unexpected l) ≡ []
only← [] g = refl
only← (key ∷ l) g =
    let first = g key (rw (text_eq_refl key) refl) in
    append-nil←
      (when-nil← _ (not (is_some (expected_subnet key))) (ap not (expected-is_some key first)))
      (only← l (λ name h. g name (ground (arith, h))))

module _ (cfg : Config) where
  network_findings→ : All (λ l. l ≡ []) (network_findings cfg) → SegmentedConfig cfg
  unfolding network_findings
  network_findings→ (a, (b, (c, (d, (e, _))))) = record {
    only = λ name n l.
        only→ name (sorted_keys cfg.networks) a (lookup-sorted_keys name n cfg.networks l);
    corp = check_segment→ cfg.networks "corp" "10.20.0.0/16" b;
    internet = check_segment→ cfg.networks "internet" "198.51.100.0/24" c;
    attached = λ name s l.
        check_attachment→ name s (each_entry-nil→ cfg.services check_attachment d name s l);
    edge = check_edge→ cfg.services e;
  }

  network_findings← : SegmentedConfig cfg → All (λ l. l ≡ []) (network_findings cfg)
  unfolding network_findings
  network_findings← h =
      let declared : (name : String)
          → any (λ key. key == name) (sorted_keys cfg.networks) ≡ true
          → (name ≡ "corp") ⊎ (name ≡ "internet") =
        λ name k.
          let there_is = sorted_keys-lookup name cfg.networks k in
          h.only name (there_is.0) (there_is.1) in
      let attached : (name : String) (s : Service)
          → lookup name cfg.services ≡ some s
          → check_attachment name s ≡ [] =
        λ name s l. check_attachment← name s (h.attached name s l) in
      (
        only← (sorted_keys cfg.networks) declared,
        (
          check_segment← _ _ _ h.corp,
          (
            check_segment← _ _ _ h.internet,
            (
              each_entry-nil← cfg.services check_attachment attached (sorted_keys cfg.services),
              (check_edge← cfg.services h.edge, tt),
            ),
          ),
        ),
      )

  -- `checkNetworks` finds nothing exactly in the declared topology: there are the two segments, with
  -- their subnets and without a way out, and no other network; no service but the control plane is on
  -- both, and the control plane is; every service is on a network or has no network interface.
  pub check_networks-Segmented : (check_networks cfg ≡ []) ↔ SegmentedConfig cfg
  unfolding check_networks
  check_networks-Segmented = (
    λ h. network_findings→ (concat-nil→ (network_findings cfg) h),
    λ h. concat-nil← (network_findings cfg) (network_findings← h),
  )
