-- ===== src/Containment/Hardened.antt =====
-- A service without a finding is hardened, and the other way round: `checkService` of
-- internal/containment/compose.go.
use planless.Prelude.{
  String, ◌≡◌, ◌↔◌, ◌⊎◌, inl, inr, refl, ap, sym, subst, true, false, not, ◌&&◌, ◌||◌, List, [],
  ◌∷◌, map, All, Has, Has-any, any-Has, ◌==◌, text_eq→eq, eq→text_eq, text_ne, Bool-cases, arith,
}
use planless.Prelude.Text.{has_prefix}
use planless.Prelude.Words.{trim_space, equal_fold}
use planless.Containment.Findings.{
  append-nil, concat-nil→, concat-nil←, when-nil→, when-nil←, not-false, is_empty-nil,
}
use planless.Containment.{
  Service, Volume, Port, concat, is_empty, runs_as_root, is_shared, check_volume, check_port,
  check_service, broken_rules,
}

-- The users that the rule takes for the superuser.
pub data IsRoot (user : String) : Type 0 where
  unset : user ≡ "" → IsRoot user
  numbered : user ≡ "0" → IsRoot user
  grouped : has_prefix user "0:" ≡ true → IsRoot user
  called : user ≡ "root" → IsRoot user

abbrev pub IsLoopback : Port → Type 0
IsLoopback p = (p.host_ip ≡ "127.0.0.1") ⊎ (p.host_ip ≡ "::1")

-- A namespace field that names neither the host's namespace nor another container's.
abbrev pub IsPrivate : String → Type 0
IsPrivate value =
    All (λ prefix. has_prefix value prefix ≡ false) ("host" ∷ "container:" ∷ "service:" ∷ [])

abbrev pub Names : String → List String → Type 0
Names want list = Has (λ v. equal_fold (trim_space v) want ≡ true) list

-- What the rules are for.
pub record IsolatedService (s : Service) : Type 0 where
  pub unprivileged : s.privileged ≡ false
  pub user : ¬ IsRoot s.user
  pub read_only : s.read_only ≡ true
  pub drops : Names "ALL" s.cap_drop
  pub adds : s.cap_add ≡ []
  pub confined : Names "no-new-privileges:true" s.security_opt
  pub namespaces : All IsPrivate (s.network_mode ∷ s.pid ∷ s.ipc ∷ s.userns_mode ∷ [])
  pub cgroup : s.cgroup_parent ≡ ""
  pub devices : s.devices ≡ []
  pub device_rules : s.device_cgroup_rules ≡ []
  pub volumes : All (λ (v : Volume). v.kind ≡ "tmpfs") s.volumes
  pub ports : All IsLoopback s.ports

runs_as_root-IsRoot← : (u : String) → IsRoot u → runs_as_root u ≡ true
runs_as_root-IsRoot← u (unset e) = rw (eq→text_eq e) refl
runs_as_root-IsRoot← u (numbered e) = ground (arith, eq→text_eq e)
runs_as_root-IsRoot← u (grouped e) = ground (arith, e)
runs_as_root-IsRoot← u (called e) = ground (arith, eq→text_eq e)

runs_as_root-false : (u : String) → ¬ IsRoot u → runs_as_root u ≡ false
runs_as_root-false u n =
    let a : (u == "") ≡ false = text_ne (λ e. n (unset e)) in
    let b : (u == "0") ≡ false = text_ne (λ e. n (numbered e)) in
    let c : (u == "root") ≡ false = text_ne (λ e. n (called e)) in
    elim (Bool-cases (has_prefix u "0:")) [
      | inl d ↦ absurd (n (grouped d))
      | inr d ↦ rw a (rw d (rw b (rw c refl)))
    ]

is_shared-IsPrivate→ : (v : String) → is_shared v ≡ false → IsPrivate v
unfolding has_prefix
is_shared-IsPrivate→ v h = elim (Bool-cases (v == "")) [
  | inl e ↦ subst IsPrivate (sym (text_eq→eq e)) (refl, (refl, (refl, tt)))
  | inr e ↦ (ground arith, (ground arith, (ground arith, tt)))
]

is_shared-IsPrivate← : (v : String) → IsPrivate v → is_shared v ≡ false
is_shared-IsPrivate← v p = ground (arith, p.0, p.1.0, p.1.1.0)

volumes-nil→ :
    (name : String) (vs : List Volume)
    → concat (map (check_volume name) vs) ≡ []
    → All (λ (v : Volume). v.kind ≡ "tmpfs") vs
volumes-nil→ name [] h = tt
volumes-nil→ name (v ∷ vs) h =
    let both = append-nil (check_volume name v) (concat (map (check_volume name) vs)) h in
    (
      text_eq→eq (not-false (v.kind == "tmpfs") (when-nil→ _ (not (v.kind == "tmpfs")) both.0)),
      volumes-nil→ name vs both.1,
    )

volumes-nil← :
    (name : String) (vs : List Volume)
    → All (λ (v : Volume). v.kind ≡ "tmpfs") vs
    → concat (map (check_volume name) vs) ≡ []
volumes-nil← name [] h = refl
volumes-nil← name (v ∷ vs) h = rw (eq→text_eq (h.0)) (volumes-nil← name vs h.1)

ports-nil→ :
    (name : String) (ps : List Port) → concat (map (check_port name) ps) ≡ [] → All IsLoopback ps
ports-nil→ name [] h = tt
ports-nil→ name (p ∷ ps) h =
    let both = append-nil (check_port name p) (concat (map (check_port name) ps)) h in
    (
      elim (Bool-cases (p.host_ip == "127.0.0.1")) [
        | inl e ↦ inl (text_eq→eq e)
        | inr e ↦ elim (Bool-cases (p.host_ip == "::1")) [
          | inl f ↦ inr (text_eq→eq f)
          | inr f ↦
              let open_to =
                when-nil→ _ (not (p.host_ip == "127.0.0.1") && not (p.host_ip == "::1")) both.0 in
              ground (arith, e, f, open_to)
        ]
      ],
      ports-nil→ name ps both.1,
    )

ports-nil← :
    (name : String) (ps : List Port) → All IsLoopback ps → concat (map (check_port name) ps) ≡ []
ports-nil← name [] h = refl
ports-nil← name (p ∷ ps) h = elim (h.0) [
  | inl e ↦ rw (eq→text_eq e) (ports-nil← name ps h.1)
  | inr e ↦ elim (Bool-cases (p.host_ip == "127.0.0.1")) [
    | inl f ↦ rw f (ports-nil← name ps h.1)
    | inr f ↦ rw f (rw (eq→text_eq e) (ports-nil← name ps h.1))
  ]
]

module _ (name : String) (s : Service) where
  broken_rules→ : All (λ l. l ≡ []) (broken_rules name s) → IsolatedService s
  unfolding broken_rules
  broken_rules→ (a, (b, (c, (d, (e, (f, (g, (i, (j, (k, (l, (m, (n, (o, _)))))))))))))) =
      let no_device =
        when-nil→ _ (not (is_empty s.devices) || not (is_empty s.device_cgroup_rules)) m in
      record {
        unprivileged = when-nil→ _ _ a;
        user = λ r. ground (arith, when-nil→ _ _ b, runs_as_root-IsRoot← s.user r);
        read_only = not-false _ (when-nil→ _ _ c);
        drops = Has-any _ _ (not-false _ (when-nil→ _ _ d));
        adds = is_empty-nil _ (when-nil→ _ _ e);
        confined = Has-any _ _ (not-false _ (when-nil→ _ _ f));
        namespaces = (
          is_shared-IsPrivate→ s.network_mode (when-nil→ _ _ g),
          (
            is_shared-IsPrivate→ s.pid (when-nil→ _ _ i),
            (
              is_shared-IsPrivate→ s.ipc (when-nil→ _ _ j),
              (is_shared-IsPrivate→ s.userns_mode (when-nil→ _ _ k), tt),
            ),
          ),
        );
        cgroup = text_eq→eq (not-false _ (when-nil→ _ _ l));
        devices = is_empty-nil _ (ground (arith, no_device));
        device_rules = is_empty-nil _ (ground (arith, no_device));
        volumes = volumes-nil→ name _ n;
        ports = ports-nil→ name _ o;
      }

  broken_rules← : IsolatedService s → All (λ l. l ≡ []) (broken_rules name s)
  unfolding broken_rules
  broken_rules← h =
      let drops = any-Has (λ v. equal_fold (trim_space v) "ALL") h.drops in
      let confined = any-Has (λ v. equal_fold (trim_space v) "no-new-privileges:true") h.confined in
      (
        when-nil← _ _ h.unprivileged,
        (
          when-nil← _ _ (runs_as_root-false s.user h.user),
          (
            when-nil← _ _ (ap not h.read_only),
            (
              when-nil← _ _ (ap not drops),
              (
                when-nil← _ _ (ap (λ (l : List String). not (is_empty l)) h.adds),
                (
                  when-nil← _ _ (ap not confined),
                  (
                    when-nil← _ _ (is_shared-IsPrivate← s.network_mode (h.namespaces.0)),
                    (
                      when-nil← _ _ (is_shared-IsPrivate← s.pid (h.namespaces.1.0)),
                      (
                        when-nil← _ _ (is_shared-IsPrivate← s.ipc (h.namespaces.1.1.0)),
                        (
                          when-nil← _ _ (is_shared-IsPrivate← s.userns_mode (h.namespaces.1.1.1.0)),
                          (
                            when-nil← _ _ (ap not (eq→text_eq h.cgroup)),
                            (
                              when-nil← _ _ (rw h.devices (rw h.device_rules refl)),
                              (
                                volumes-nil← name s.volumes h.volumes,
                                (ports-nil← name s.ports h.ports, tt),
                              ),
                            ),
                          ),
                        ),
                      ),
                    ),
                  ),
                ),
              ),
            ),
          ),
        ),
      )

  -- `checkService` finds nothing wrong with a service exactly where the service is isolated: it is
  -- unprivileged, its user is set and is none that the rule takes for the superuser, its root file
  -- system is read-only, it drops all capabilities and adds none, it cannot gain privileges, it shares
  -- no namespace, control group or device with the host or a container, it mounts nothing but tmpfs, and
  -- it publishes ports on the loopback interface only.
  pub check_service-Isolated : (check_service name s ≡ []) ↔ IsolatedService s
  unfolding check_service
  check_service-Isolated = (
    λ h. broken_rules→ (concat-nil→ (broken_rules name s) h),
    λ h. concat-nil← (broken_rules name s) (broken_rules← h),
  )
