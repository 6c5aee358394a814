-- ===== src/Resources/Tree/Conservation.antt =====
-- Nothing is lost or doubled: a resource stands in the tree or stays in its group.
use mathlib.Core.Path.{subst}
use keylo.Base.{
  ℕ, suc, zero, ◌+◌, String, Bool, Option, none, some, List, [], ◌∷◌, ◌≡◌, refl, arith, count,
  count-append, length, if◌then◌else◌, StrMap, remove, Bool-cases, inl, inr,
}
use keylo.Session.Tables.{same_text}
use keylo.Resources.Tree.{
  Permission, Resource, ResourceTreeNode, node, Forest, nil, cons, Maps, visible_parent, push_child,
  group_children, take_children, comes_after, insert_child, sort_children, built_rest, built_node,
  build_children, build_level, build_tree,
}

module _ (test : Resource → Bool) where
  unfoldable mutual
    -- How many resources of a tree pass the test.
    pub count_node : ResourceTreeNode → ℕ
    count_node (node r ps children) = (if test r then 1 else 0) + count_forest children

    pub count_forest : Forest → ℕ
    count_forest nil = 0
    count_forest (cons n forest) = count_node n + count_forest forest

  -- How many resources that wait in their groups pass it.
  abbrev pub count_groups : List (Option String × List Resource) → ℕ
  count_groups [] = 0
  count_groups ((key, group) ∷ groups) = count test group + count_groups groups

  push_child-count :
      (parent : Option String) (r : Resource) (gs : List (Option String × List Resource))
      → count_groups (push_child parent r gs) ≡ (if test r then 1 else 0) + count_groups gs
  push_child-count parent r [] = ground arith
  push_child-count parent r ((key, group) ∷ gs) =
      ground (arith, push_child-count parent r gs, count-append test group (r ∷ []))

  group_children-count :
      (visible rs : List Resource) (gs : List (Option String × List Resource))
      → count_groups (group_children visible rs gs) ≡ count test rs + count_groups gs
  group_children-count visible [] gs = omega arith
  group_children-count visible (r ∷ rs) gs = omega (
    arith,
    group_children-count visible rs (push_child (visible_parent visible r) r gs),
    push_child-count (visible_parent visible r) r gs,
  )

  take_children-count :
      (parent : Option String) (gs : List (Option String × List Resource))
      → let (children, rest) = take_children parent gs in
        count test children + count_groups rest ≡ count_groups gs
  take_children-count parent [] = refl
  take_children-count parent ((key, group) ∷ gs) = elim (Bool-cases (same_text key parent)) [
    | inl same ↦ rw same refl
    | inr other ↦ rw other (omega (arith, take_children-count parent gs))
  ]

  insert_child-count :
      (r : Resource) (xs : List Resource)
      → count test (insert_child r xs) ≡ (if test r then 1 else 0) + count test xs
  insert_child-count r [] = refl
  insert_child-count r (x ∷ xs) = elim (Bool-cases (comes_after r x)) [
    | inl after ↦ rw after (omega (arith, insert_child-count r xs))
    | inr before ↦ rw before refl
  ]

  sort_children-count : (rs : List Resource) → count test (sort_children rs) ≡ count test rs
  sort_children-count [] = refl
  sort_children-count (r ∷ rs) =
      omega (arith, insert_child-count r (sort_children rs), sort_children-count rs)

  waiting : Maps → ℕ
  waiting maps = count_groups maps.children_by_parent

  -- An answer that accounts for `n` resources.
  abbrev Accounts : ℕ → Option (Forest × Maps) → Type 0
  Accounts n none = Unit
  Accounts n (some (forest, left)) = count_forest forest + count_groups left.children_by_parent ≡ n

  built_rest-Accounts :
      (r : Resource) (ps : List Permission) (children : Forest) (m n : ℕ)
      (o : Option (Forest × Maps))
      → Accounts m o
      → n ≡ (if test r then 1 else 0) + count_forest children + m
      → Accounts n (built_rest r ps children o)
  unfolding count_forest count_node
  built_rest-Accounts r ps children m n none a e = tt
  built_rest-Accounts r ps children m n (some (siblings, left)) a e = omega (arith, a, e)

  built_node-Accounts :
      (r : Resource) (ps : List Permission) (rest : Maps → Option (Forest × Maps)) (m k n : ℕ)
      (o : Option (Forest × Maps))
      → Accounts m o
      → ((left : Maps) → Accounts (k + count_groups left.children_by_parent) (rest left))
      → n ≡ (if test r then 1 else 0) + k + m
      → Accounts n (built_node r ps rest o)
  built_node-Accounts r ps rest m k n none a next e = tt
  built_node-Accounts r ps rest m k n (some (children, left)) a next e =
      built_rest-Accounts r ps children (k + count_groups left.children_by_parent) n (rest left)
        (next left) (omega (arith, a, e))

  build_children-Accounts :
      (level : Option String → Maps → Option (Forest × Maps))
      → ((parent : Option String) (m : Maps)
          → Accounts (count_groups m.children_by_parent) (level parent m))
      → (rs : List Resource) (maps : Maps)
      → Accounts
          (count test rs + count_groups maps.children_by_parent)
          (build_children level rs maps)
  unfolding build_children count_forest
  build_children-Accounts level a [] maps = refl
  build_children-Accounts level a (r ∷ rs) maps =
      let inner = record maps { permission_map = remove r.id maps.permission_map } in
      built_node-Accounts r _ _ (count_groups maps.children_by_parent) (count test rs) _
        (level (some r.id) inner) (a (some r.id) inner)
        (λ left. build_children-Accounts level a rs left) (omega arith)

  build_level-Accounts :
      (fuel : ℕ) (parent : Option String) (maps : Maps)
      → Accounts (count_groups maps.children_by_parent) (build_level fuel parent maps)
  unfolding build_level
  build_level-Accounts zero parent maps = tt
  build_level-Accounts (suc fuel) parent maps =
      let gs = maps.children_by_parent in
      let children = (take_children parent gs).0 in
      let taken = record maps { children_by_parent = (take_children parent gs).1 } in
      let total : count test (sort_children children) + count_groups taken.children_by_parent
          ≡ count_groups gs =
        omega (arith, sort_children-count children, take_children-count parent gs) in
      subst (λ n. Accounts n (build_children (build_level fuel) (sort_children children) taken))
        total
        (build_children-Accounts (build_level fuel) (build_level-Accounts fuel)
          (sort_children children) taken)

  -- Of the resources that pass any test, as many stand in the tree as were visible, less those whose
  -- group was never reached; each resource is counted as often as it was given.
  pub build_tree-count :
      (resources : List Resource) (permission_map : StrMap (List Permission)) (forest : Forest)
      (left : Maps)
      → build_tree resources permission_map ≡ some (forest, left)
      → count_forest forest + count_groups left.children_by_parent ≡ count test resources
  unfolding build_tree
  build_tree-count resources permission_map forest left built =
      let gs = group_children resources resources [] in
      let maps : Maps = record { children_by_parent = gs; permission_map = permission_map } in
      let kept =
        subst (Accounts (count_groups gs)) built
          (build_level-Accounts (suc (length gs)) none maps) in
      omega (arith, kept, group_children-count resources resources [])
