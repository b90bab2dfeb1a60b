-- ===== src/Platform/Authz/Read.antt =====
-- Who may read an object, stated by the grants and the addresses that their ranges hold.
use planless.Prelude.{
  ℕ, ◌≡◌, ◌≢◌, ◌↔◌, refl, sym, ◌∙◌, String, Bool, true, false, ◌||◌, some, List, [], ◌∷◌, ◌==◌, any,
  Has, Option-cases, inl, inr, arith, eq→text_eq, text_ne,
}
use planless.Netset.Ip.{Addr, v4}
use planless.Platform.Model.{State, Caller, anonymous, kind_bucket, action_read, principal_of}
use planless.Platform.Store.{is_object}
use planless.Platform.Authz.{member, Exposure, effective_grants, grant_scan, authorize_object_read}
use planless.Platform.Authz.Grants.{
  Permits, IsUnreadable, admits, scan_lem, unreadable→, unreadable←,
}

-- A read is open to the principals that a grant names, and to everybody where it names `*`.
abbrev pub reads : Caller → List String → Bool
reads c ps = member ps (principal_of c) || member ps anonymous

grant_scan-any :
    (es : List Exposure) (c : Caller) (addr : Addr)
    → (grant_scan es (principal_of c) addr).allowed ≡ any (admits (reads c) addr) es
unfolding grant_scan
grant_scan-any [] c addr = refl
grant_scan-any (e ∷ rest) c addr = ground (arith, grant_scan-any rest c addr)

-- What the platform demands of a read.
pub record MayRead (st : State) (c : Caller) (v : ℕ) (bucket key : String) : Type 0 where
  pub in_segment : c.segment ≢ ""
  pub exists : any (is_object bucket key) st.objects ≡ true
  pub readable : ¬ Has (IsUnreadable kind_bucket bucket action_read) st.grants
  pub permitted : Has (Permits kind_bucket bucket action_read (reads c) v) st.grants

module _ (st : State) (c : Caller) (v : ℕ) (bucket key : String) (from_v : c.addr ≡ v4 v) where
  read_found :
      (es : List Exposure)
      → (c.segment == "") ≡ false
      → any (is_object bucket key) st.objects ≡ true
      → effective_grants st.grants kind_bucket bucket action_read ≡ some es
      → (authorize_object_read st c bucket key).allowed ≡ any (admits (reads c) (v4 v)) es
  unfolding authorize_object_read
  read_found es s o e = rw (← from_v) (ground (arith, s, o, e, grant_scan-any es c c.addr))

  read→ : (authorize_object_read st c bucket key).allowed ≡ true → MayRead st c v bucket key
  unfolding authorize_object_read
  read→ h = elim (Option-cases (effective_grants st.grants kind_bucket bucket action_read)) [
    | inl n ↦ absurd (ground (arith, n, h))
    | inr (es, e) ↦
        let s : (c.segment == "") ≡ false = ground (arith, h) in
        let o : any (is_object bucket key) st.objects ≡ true = ground (arith, h) in
        let scanned = read_found es s o e in
        record {
          in_segment = λ p. cc (s, eq→text_eq p);
          exists = o;
          readable = λ u. cc (unreadable← kind_bucket bucket action_read u, e);
          permitted =
              (scan_lem kind_bucket bucket action_read (reads c) v st.grants es e).0
                (sym scanned ∙ h);
        }
  ]

  read← : MayRead st c v bucket key → (authorize_object_read st c bucket key).allowed ≡ true
  read← m = elim (Option-cases (effective_grants st.grants kind_bucket bucket action_read)) [
    | inl n ↦ absurd (m.readable (unreadable→ kind_bucket bucket action_read st.grants n))
    | inr (es, e) ↦
        read_found es (text_ne m.in_segment) m.exists e
        ∙ ((scan_lem kind_bucket bucket action_read (reads c) v st.grants es e).1 m.permitted)
  ]

  -- A read from an IPv4 address is allowed exactly when the caller is in a segment, the object
  -- exists, every read grant of the bucket can be read, and one of them names the caller or
  -- everybody and holds the address in a source range.
  pub authorize_object_read_iff :
      ((authorize_object_read st c bucket key).allowed ≡ true) ↔ MayRead st c v bucket key
  authorize_object_read_iff = (read→, read←)
