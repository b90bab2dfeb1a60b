-- ===== src/Containment/Contained.antt =====
-- What it takes for a configuration to pass: `Check` of internal/containment/compose.go.
use planless.Prelude.{
  String, ◌≡◌, ◌↔◌, inl, inr, refl, ap, ◌∙◌, false, some, none, List, [], ◌∷◌, All, Bool-cases,
  Option-cases,
}
use planless.Prelude.Words.{contains_text}
use planless.Containment.Findings.{
  concat-nil→, concat-nil←, when-nil→, when-nil←, each_entry-nil→, each_entry-nil←, each-nil→,
  each-nil←,
}
use planless.Containment.Hardened.{IsolatedService, check_service-Isolated}
use planless.Containment.Segmented.{SegmentedConfig, check_networks-Segmented}
use planless.Containment.{
  Env, Config, Service, lookup, is_empty, sorted_keys, check, all_findings, check_service, concat,
  forbidden, forbidden_substrings, compact_json,
}

-- The configuration decodes, declares a service, names no runtime socket and no host network, and has
-- the declared topology and isolated services only.
pub record ContainedRun (env : Env) (raw : String) : Type 0 where
  pub config : Config
  pub decoded : env.read_config raw ≡ some config
  pub inhabited : is_empty config.services ≡ false
  pub quiet :
      All (λ needle. contains_text (compact_json env raw) needle ≡ false) forbidden_substrings
  pub topology : SegmentedConfig config
  pub isolated :
      (name : String) (s : Service) → lookup name config.services ≡ some s → IsolatedService s

module _ (compact : String) where
  quiet→ :
      (l : List String)
      → All (λ needle. forbidden compact needle ≡ []) l
      → All (λ needle. contains_text compact needle ≡ false) l
  quiet→ [] h = tt
  quiet→ (needle ∷ l) h = (when-nil→ _ (contains_text compact needle) (h.0), quiet→ l h.1)

  quiet← :
      (l : List String)
      → All (λ needle. contains_text compact needle ≡ false) l
      → All (λ needle. forbidden compact needle ≡ []) l
  quiet← [] h = tt
  quiet← (needle ∷ l) h = (when-nil← _ (contains_text compact needle) (h.0), quiet← l h.1)

module _ (env : Env) (raw : String) where
  check-concat :
      (cfg : Config)
      → env.read_config raw ≡ some cfg
      → is_empty cfg.services ≡ false
      → check env raw ≡ some (concat (all_findings env raw cfg))
  unfolding check
  check-concat cfg r i = rw (r, check) (rw i refl)

  check→ : check env raw ≡ some [] → ContainedRun env raw
  unfolding check all_findings
  check→ h = elim (Option-cases (env.read_config raw)) [
    | inl n ↦ absurd (cc (rw (n, check) at h))
    | inr (cfg, r) ↦ elim (Bool-cases (is_empty cfg.services)) [
      | inl e ↦ absurd (let no : check env raw ≡ none = rw (r, check) (rw e refl) in cc)
      | inr e ↦
          let whole : concat (all_findings env raw cfg) ≡ [] = cc (check-concat cfg r e, h) in
          let parts = concat-nil→ (all_findings env raw cfg) whole in
          record {
            config = cfg;
            decoded = r;
            inhabited = e;
            quiet =
                quiet→ (compact_json env raw) forbidden_substrings
                  (each-nil→ (forbidden (compact_json env raw)) forbidden_substrings (parts.0));
            topology = (check_networks-Segmented cfg).0 (parts.1.0);
            isolated = λ name s l.
                (check_service-Isolated name s).0
                  (each_entry-nil→ cfg.services check_service (parts.1.1.0) name s l);
          }
    ]
  ]

  check← : ContainedRun env raw → check env raw ≡ some []
  unfolding all_findings
  check← c =
      let isolated : (name : String) (s : Service)
          → lookup name c.config.services ≡ some s
          → check_service name s ≡ [] =
        λ name s l. (check_service-Isolated name s).1 (c.isolated name s l) in
      let parts : All (λ l. l ≡ []) (all_findings env raw c.config) = (
        each-nil← (forbidden (compact_json env raw)) forbidden_substrings
            (quiet← (compact_json env raw) forbidden_substrings c.quiet),
        (
          (check_networks-Segmented c.config).1 c.topology,
          (
            each_entry-nil← c.config.services check_service isolated
                (sorted_keys c.config.services),
            tt,
          ),
        ),
      ) in
      check-concat c.config c.decoded c.inhabited
      ∙ ap some (concat-nil← (all_findings env raw c.config) parts)

  -- The check of a resolved Compose configuration returns neither an error nor a finding exactly
  -- when it decodes and declares a service, its compact text has none of the forbidden substrings,
  -- its networks are the two declared segments with their subnets and no way out, only the control
  -- plane is on both, and every service is unprivileged, read-only, without capabilities, shared
  -- namespaces, devices or mounts but tmpfs, reachable on the loopback interface only, and has a
  -- user that is none of those the rule takes for the superuser.
  pub check-Contained : (check env raw ≡ some []) ↔ ContainedRun env raw
  check-Contained = (check→, check←)
