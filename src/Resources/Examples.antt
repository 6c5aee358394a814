-- ===== src/Resources/Examples.antt =====
-- A menu with one entry under it, and two resources that are each other's parent.
use keylo.Base.Results.{pos}
use keylo.Base.{ℕ, String, true, Option, none, some, List, [], ◌∷◌, ◌≡◌, refl, StrMap, empty}
use keylo.Resources.Tree.{
  Permission, Resource, Forest, node, nil, cons, Maps, build_children, build_level, build_tree,
}
use keylo.Resources.Tree.Shape.{IsTree, build_tree-IsTree}

abbrev entry : String → Option String → ℕ → Resource
entry id parent order = record {
  id = id;
  organization_id = none;
  app = "admin";
  resource_type = "menu";
  code = id;
  name = id;
  parent_id = parent;
  display_order = pos order;
  description = none;
  metadata = none;
  active = true;
  version = 1;
  created_at = 5;
  updated_at = 5;
}

abbrev rows : List Resource
rows =
    entry "users" (some "top") 2
    ∷ entry "top" none 1
    ∷ entry "roles" (some "top") 1
    ∷ entry "a" (some "b") 1
    ∷ entry "b" (some "a") 1
    ∷ []

abbrev granted : StrMap (List Permission)
granted = empty

abbrev forest_of : Option (Forest × Maps) → Forest
forest_of none = nil
forest_of (some (forest, left)) = forest

build_tree-rows :
    forest_of (build_tree rows granted)
    ≡ cons
        (node (entry "top" none 1) [] (
          cons
            (node (entry "roles" (some "top") 1) [] nil)
            (cons (node (entry "users" (some "top") 2) [] nil) nil)))
        nil
unfolding build_tree build_level build_children
build_tree-rows = refl

build_tree-IsTree_example :
    (forest : Forest) × (left : Maps) × (build_tree rows granted ≡ some (forest, left))
    × IsTree rows forest left
build_tree-IsTree_example = build_tree-IsTree rows granted
