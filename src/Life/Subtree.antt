-- ===== src/Life/Subtree.antt =====
-- `getSubtreeHierarchy` of life.service.ts: the places below a parent, each with those below it.
-- The recursion has fuel, and runs out of it with `none`.
use madinaty_ai_core_mesh.Base.{ℕ, zero, suc, List, [], ◌∷◌, Option, none, some, keep_if}
use madinaty_ai_core_mesh.Life.{Location}
use madinaty_ai_core_mesh.Life.Breadcrumbs.{is_child_of}

-- A place with its children, and a list of such.
mutual
  pub data Tree (F J : Type 0) : Type 0 where
    node : Location F J → Forest F J → Tree F J

  pub data Forest (F J : Type 0) : Type 0 where
    empty : Forest F J
    grow : Tree F J → Forest F J → Forest F J

module _ {F J : Type 0} where
  abbrev plant : Location F J → Option (Forest F J) → Option (Forest F J) → Option (Forest F J)
  plant l none _ = none
  plant l (some below) none = none
  plant l (some below) (some beside) = some (grow (node l below) beside)

  -- The places of one level, each with what lies below it.
  unfoldable pub each : (ℕ → Option (Forest F J)) → List (Location F J) → Option (Forest F J)
  each below [] = some empty
  each below (l ∷ rest) = plant l (below l.id) (each below rest)

module _ {F J : Type 0} (by_name : List (Location F J) → List (Location F J))
    (ls : List (Location F J)) where
  unfoldable pub get_subtree_hierarchy : ℕ → Option ℕ → Option (Forest F J)
  get_subtree_hierarchy zero parent = none
  get_subtree_hierarchy (suc fuel) parent =
      each (λ id. get_subtree_hierarchy fuel (some id)) (by_name (keep_if (is_child_of parent) ls))
