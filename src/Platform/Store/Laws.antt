-- ===== src/Platform/Store/Laws.antt =====
-- What reads of the platform store give after a write.
use planless.Prelude.{
  ℕ, ◌+◌, ◌≡◌, refl, sym, ap, ◌∙◌, String, true, List, [], ◌∷◌, ◌++◌, if◌then◌else◌, arith, find,
  some, text_eq→eq, eq→text_eq,
}
use planless.Ordered.Extension.{find-put}
use planless.Ordered.Lookup.{IsClass}
use planless.Platform.Model.{Object, Caller}
use planless.Platform.Store.{Store, object, is_object, put_object, resource_view, record_entry}
use planless.Platform.Store.Orders.{object_order}
use planless.Platform.Store.WellFormed.{IsWellFormed}
use planless.Platform.Store.Writes.{apply, apply_lem, stored, Write}
use planless.Platform.Store.Writes

is_object-IsClass : (b k : String) → IsClass object_order (is_object b k)
is_object-IsClass b k = record {
  joins = λ x y h m.
      let p = parts x h in
      let q = parts y m in ground (arith, eq→text_eq (p.0 ∙ sym q.0), eq→text_eq (p.1 ∙ sym q.1));
  closed = λ x y h m.
      let p = parts x h in
      let q = same x y m in ground (arith, eq→text_eq (sym q.0 ∙ p.0), eq→text_eq (sym q.1 ∙ p.1));
}
  where
    parts : (x : Object) → is_object b k x ≡ true → (x.bucket ≡ b) × (x.key ≡ k)
    parts x h = (text_eq→eq (ground arith), text_eq→eq (ground arith))

    same : (x y : Object) → object_order.same x y ≡ true → (x.bucket ≡ y.bucket) × (x.key ≡ y.key)
    same x y h = (text_eq→eq (ground arith), text_eq→eq (ground arith))

-- After an object is put in a well-formed store, its bucket and key name it with the digest and
-- the size of its bytes, and every other name gives what it gave before.
pub object-put_object :
    (digest : List ℕ → String) (o : Object) (body : List ℕ) (s : Store) (b k : String)
    → IsWellFormed s
    → object (put_object digest o body s) b k
      ≡ (if is_object b k o then some (stored digest o body) else object s b k)
unfolding object apply
object-put_object digest o body s b k w =
    ap (λ (t : Store). find (is_object b k) t.state.objects)
      (apply_lem digest (Writes.object o body) w)
    ∙ find-put object_order (is_object b k) (stored digest o body) s.state.objects
        (is_object-IsClass b k) w.ordered.objects

-- `Record` gives the next number, and leaves the digested view of the state alone.
pub record_entry_lem :
    (action resource : String) (c : Caller) (detail : String) (s : Store)
    → (resource_view (record_entry action resource c detail s).0.state ≡ resource_view s.state)
      × ((record_entry action resource c detail s).1.seq ≡ s.seq + 1)
      × ((record_entry action resource c detail s).0.seq ≡ s.seq + 1)
      × ((record_entry action resource c detail s).0.state.ledger
          ≡ s.state.ledger ++ (record_entry action resource c detail s).1 ∷ [])
unfolding record_entry resource_view
record_entry_lem action resource c detail s = (refl, refl, refl, refl)
