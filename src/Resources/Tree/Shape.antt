-- ===== src/Resources/Tree/Shape.antt =====
-- The tree that is built, whatever rows there are.
use keylo.Base.{false, ◌+◌, Bool, none, some, List, ◌≡◌, count, StrMap}
use keylo.Resources.Tree.{Permission, Resource, Forest, Maps, build_tree}
use keylo.Resources.Tree.Termination.{build_tree-some}
use keylo.Resources.Tree.Conservation.{count_forest, count_groups, build_tree-count}
use keylo.Resources.Tree.Placement.{IsPlaced, AreGrouped, build_tree-IsPlaced}
use keylo.Resources.Tree.Reached.{has_group, IsDrained, build_tree-IsDrained}

-- What a tree that was built and the groups left over have to do with the rows.
pub record IsTree (resources : List Resource) (forest : Forest) (left : Maps) : Type 0 where
  -- Top nodes have no visible parent, and the children of a node have it as their visible parent.
  pub placed : IsPlaced resources none forest
  -- What is left over is grouped by its visible parent.
  pub grouped : AreGrouped resources left.children_by_parent
  -- No group is left for the top,
  pub top_reached : has_group none left.children_by_parent ≡ false
  -- nor for any node of the tree.
  pub reached : IsDrained left.children_by_parent forest
  -- Nothing is lost and nothing doubled.
  pub conserved :
      (test : Resource → Bool)
      → count_forest test forest + count_groups test left.children_by_parent ≡ count test resources

-- A tree is always built, also when parents form cycles: the fuel of one more than the number of
-- groups is enough. At its top stand resources without a visible parent, and below each node
-- resources whose visible parent it is. Of the resources that pass any test, as many stand in the
-- tree or are left over as were given; those left over are grouped by their visible parent, which is
-- neither absent nor a node of the tree, so every resource without a visible parent, and every one
-- whose visible parent stands in the tree, stands in it too.
pub build_tree-IsTree :
    (resources : List Resource) (permission_map : StrMap (List Permission))
    → (forest : Forest) × (left : Maps) × (build_tree resources permission_map
        ≡ some (forest, left))
      × IsTree resources forest left
build_tree-IsTree resources permission_map =
    let (forest, left, built) = build_tree-some resources permission_map in
    let (placed, grouped) = build_tree-IsPlaced resources permission_map forest left built in
    let (top, reached) = build_tree-IsDrained resources permission_map forest left built in
    (
      forest,
      left,
      built,
      record {
        placed = placed;
        grouped = grouped;
        top_reached = top;
        reached = reached;
        conserved = λ test. build_tree-count test resources permission_map forest left built;
      },
    )
