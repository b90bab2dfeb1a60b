-- ===== src/Graph/Plan/Planned.antt =====
-- The resources of a plan in the order in which `walk` of internal/graph/normalize.go visits them, and
-- what the visits do to any test on the result.
use planless.Prelude.{
  ℤ, String, Bool, ◌||◌, ◌≡◌, List, [], ◌∷◌, ◌++◌, any, any-append, ap, sym, ◌∙◌, arith,
}
use planless.Prelude.Text.{trim_prefix}
use planless.Graph.Origins.{Decode, ConfigIndex, PlanResource}
use planless.Graph.Plan.{
  PlanModule, ChildModules, plan_module, none_left, child, Walk, module_name, visit, visit_all,
  walk, walk_children,
}

-- A resource with the name of its module, which is empty at the root.
abbrev pub Place : Type 0
Place = String × PlanResource

abbrev pub placed : String → List PlanResource → List Place
placed path [] = []
placed path (r ∷ rest) = (path, r) ∷ placed path rest

unfoldable mutual
  unfolding trim_prefix

  pub planned : String → PlanModule → List Place
  planned path (plan_module _ resources children) = placed path resources ++ planned_in children

  pub planned_in : ChildModules → List Place
  planned_in none_left = []
  planned_in (child (plan_module address resources children) rest) =
      planned (module_name address) (plan_module address resources children) ++ planned_in rest

or_step : (a b c d e : Bool) → a ≡ (b || c) → b ≡ (d || e) → a ≡ (d || (e || c))
or_step a b c d e p q = ground (arith, p, q)

-- A test that every visit extends by what it finds in the resource extends, over the walk, by what it
-- finds in the plan.
module _ (int_of : String → ℤ) (decode : Decode) (idx : ConfigIndex) (test : Walk → Bool)
    (found : Place → Bool)
    (by_visit : (path : String) (r : PlanResource) (w : Walk)
      → test (visit int_of decode idx path r w) ≡ (test w || found (path, r))) where
  visit_all-any :
      (path : String) (resources : List PlanResource) (w : Walk)
      → test (visit_all int_of decode idx path resources w)
        ≡ (test w || any found (placed path resources))
  unfolding visit_all
  visit_all-any path [] w = ground arith
  visit_all-any path (r ∷ rest) w =
      ground (arith, visit_all-any path rest (visit int_of decode idx path r w), by_visit path r w)

  mutual
    unfolding walk planned

    found_in_module :
        (path : String) (m : PlanModule) (w : Walk)
        → test (walk int_of decode idx path m w) ≡ (test w || any found (planned path m))
    found_in_module path (plan_module address resources children) w =
        or_step _ _ _ _ _
          (found_in_children children (visit_all int_of decode idx path resources w))
          (visit_all-any path resources w)
        ∙ ap (λ (b : Bool). test w || b)
            (sym (any-append found (placed path resources) (planned_in children)))

    found_in_children :
        (children : ChildModules) (w : Walk)
        → test (walk_children int_of decode idx children w)
          ≡ (test w || any found (planned_in children))
    found_in_children none_left w = ground arith
    found_in_children (child (plan_module address resources children) rest) w =
        or_step _ _ _ _ _
          (found_in_children rest (
            walk int_of decode idx (module_name address) (plan_module address resources children)
              w))
          (found_in_module (module_name address) (plan_module address resources children) w)
        ∙ ap (λ (b : Bool). test w || b)
            (sym (
              any-append found
                (planned (module_name address) (plan_module address resources children))
                (planned_in rest)))

  pub walk-any :
      (path : String) (m : PlanModule) (w : Walk)
      → test (walk int_of decode idx path m w) ≡ (test w || any found (planned path m))
  walk-any = found_in_module
