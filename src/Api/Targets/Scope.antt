-- ===== src/Api/Targets/Scope.antt =====
-- Who may write in a resource's scope: `authorizeWrite` of internal/api/server.go, stated by the
-- grants and the addresses that their ranges hold.
use planless.Prelude.{
  ℕ, ◌≡◌, ◌↔◌, refl, sym, ◌∙◌, String, Bool, true, some, List, [], ◌∷◌, any, Has, Option-cases, inl,
  inr, arith,
}
use planless.Netset.Ip.{Addr, v4}
use planless.Platform.Model.{State, Caller, principal_of, action_write}
use planless.Platform.Authz.{member, Exposure, effective_grants}
use planless.Platform.Authz.Grants.{
  Permits, IsUnreadable, admits, scan_lem, unreadable→, unreadable←,
}
use planless.Api.Targets.{write_scan, authorize_write}

-- A write is open to the principals that a grant names.
abbrev pub writes : Caller → List String → Bool
writes c ps = member ps (principal_of c)

write_scan-any :
    (es : List Exposure) (c : Caller) (addr : Addr)
    → write_scan es (principal_of c) addr ≡ any (admits (writes c) addr) es
unfolding write_scan
write_scan-any [] c addr = refl
write_scan-any (e ∷ rest) c addr = ground (arith, write_scan-any rest c addr)

-- What the platform demands of a write to the scope of a resource.
pub record MayWrite (st : State) (c : Caller) (v : ℕ) (kind name : String) : Type 0 where
  pub readable : ¬ Has (IsUnreadable kind name action_write) st.grants
  pub permitted : Has (Permits kind name action_write (writes c) v) st.grants

module _ (st : State) (c : Caller) (v : ℕ) (kind name : String) (from_v : c.addr ≡ v4 v) where
  scanned :
      (es : List Exposure)
      → effective_grants st.grants kind name action_write ≡ some es
      → authorize_write st c kind name ≡ any (admits (writes c) (v4 v)) es
  unfolding authorize_write
  scanned es e = rw (← from_v) (ground (arith, e, write_scan-any es c c.addr))

  write→ : authorize_write st c kind name ≡ true → MayWrite st c v kind name
  write→ h = elim (Option-cases (effective_grants st.grants kind name action_write)) [
    | inl n ↦ absurd (unfold authorize_write in ground (arith, n, h))
    | inr (es, e) ↦ record {
      readable = λ u. cc (unreadable← kind name action_write u, e);
      permitted =
          (scan_lem kind name action_write (writes c) v st.grants es e).0 (sym (scanned es e) ∙ h);
    }
  ]

  write← : MayWrite st c v kind name → authorize_write st c kind name ≡ true
  write← m = elim (Option-cases (effective_grants st.grants kind name action_write)) [
    | inl n ↦ absurd (m.readable (unreadable→ kind name action_write st.grants n))
    | inr (es, e) ↦
        scanned es e ∙ ((scan_lem kind name action_write (writes c) v st.grants es e).1 m.permitted)
  ]

  -- A write from an IPv4 address is allowed exactly when every write grant of the resource can be
  -- read, and one of them names the caller's principal and holds the address in a source range.
  pub authorize_write_iff : (authorize_write st c kind name ≡ true) ↔ MayWrite st c v kind name
  authorize_write_iff = (write→, write←)
