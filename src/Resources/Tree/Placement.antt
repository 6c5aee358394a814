-- ===== src/Resources/Tree/Placement.antt =====
-- Every node stands under its parent.
use mathlib.Core.Path.{subst}
use keylo.Base.{
  ℕ, suc, zero, String, true, Option, none, some, List, [], ◌∷◌, ◌++◌, ◌≡◌, refl, ap, eq_iff,
  length, StrMap, remove, Bool-cases, inl, inr,
}
use keylo.Session.Tables.{same_text}
use keylo.Resources.Tree.{
  Permission, Resource, ResourceTreeNode, node, Forest, nil, cons, Maps, visible_parent, push_child,
  group_children, take_children, comes_after, insert_child, sort_children, built_rest, built_node,
  build_children, build_level, build_tree,
}

same_text-eq : (a b : Option String) → same_text a b ≡ true → a ≡ b
same_text-eq none none same = refl
same_text-eq none (some b) same = cc
same_text-eq (some a) none same = cc
same_text-eq (some a) (some b) same = ap some ((eq_iff a b).0 same)

module _ (visible : List Resource) where
  unfoldable mutual
    -- The nodes stand where their visible parent says.
    pub IsPlaced : Option String → Forest → Type 0
    IsPlaced parent nil = Unit
    IsPlaced parent (cons n forest) = IsPlacedNode parent n × IsPlaced parent forest

    pub IsPlacedNode : Option String → ResourceTreeNode → Type 0
    IsPlacedNode parent (node r ps children) =
        (visible_parent visible r ≡ parent) × IsPlaced (some r.id) children

  -- The visible parent of each of these is `parent`.
  abbrev pub AreOf : Option String → List Resource → Type 0
  AreOf parent [] = Unit
  AreOf parent (r ∷ rs) = (visible_parent visible r ≡ parent) × AreOf parent rs

  -- Each group holds resources whose visible parent is its key.
  abbrev pub AreGrouped : List (Option String × List Resource) → Type 0
  AreGrouped [] = Unit
  AreGrouped ((key, group) ∷ groups) = AreOf key group × AreGrouped groups

  append-AreOf :
      (parent : Option String) (rs : List Resource) (r : Resource)
      → AreOf parent rs
      → visible_parent visible r ≡ parent
      → AreOf parent (rs ++ r ∷ [])
  append-AreOf parent [] r of is = (is, tt)
  append-AreOf parent (x ∷ rs) r (first, of) is = (first, append-AreOf parent rs r of is)

  push_child-AreGrouped :
      (parent : Option String) (r : Resource) (gs : List (Option String × List Resource))
      → visible_parent visible r ≡ parent
      → AreGrouped gs
      → AreGrouped (push_child parent r gs)
  push_child-AreGrouped parent r [] is grouped = ((is, tt), tt)
  push_child-AreGrouped parent r ((key, group) ∷ gs) is (of, grouped) =
      elim (Bool-cases (same_text key parent)) [
        | inl same ↦
            rw same (append-AreOf key group r of (cc (is, same_text-eq key parent same)), grouped)
        | inr other ↦ rw other (of, push_child-AreGrouped parent r gs is grouped)
      ]

  group_children-AreGrouped :
      (rs : List Resource) (gs : List (Option String × List Resource))
      → AreGrouped gs
      → AreGrouped (group_children visible rs gs)
  group_children-AreGrouped [] gs grouped = grouped
  group_children-AreGrouped (r ∷ rs) gs grouped =
      group_children-AreGrouped rs (push_child (visible_parent visible r) r gs)
        (push_child-AreGrouped (visible_parent visible r) r gs refl grouped)

  take_children-AreOf :
      (parent : Option String) (gs : List (Option String × List Resource))
      → AreGrouped gs
      → let (children, rest) = take_children parent gs in AreOf parent children × AreGrouped rest
  take_children-AreOf parent [] grouped = (tt, tt)
  take_children-AreOf parent ((key, group) ∷ gs) (of, grouped) =
      elim (Bool-cases (same_text key parent)) [
        | inl same ↦ rw same (subst (λ k. AreOf k group) (same_text-eq key parent same) of, grouped)
        | inr other ↦
            let found = take_children-AreOf parent gs grouped in rw other (found.0, (of, found.1))
      ]

  insert_child-AreOf :
      (parent : Option String) (r : Resource) (xs : List Resource)
      → visible_parent visible r ≡ parent
      → AreOf parent xs
      → AreOf parent (insert_child r xs)
  insert_child-AreOf parent r [] is of = (is, tt)
  insert_child-AreOf parent r (x ∷ xs) is (first, of) = elim (Bool-cases (comes_after r x)) [
    | inl after ↦ rw after (first, insert_child-AreOf parent r xs is of)
    | inr before ↦ rw before (is, (first, of))
  ]

  sort_children-AreOf :
      (parent : Option String) (rs : List Resource)
      → AreOf parent rs
      → AreOf parent (sort_children rs)
  sort_children-AreOf parent [] of = tt
  sort_children-AreOf parent (r ∷ rs) (is, of) =
      insert_child-AreOf parent r (sort_children rs) is (sort_children-AreOf parent rs of)

  -- An answer that stands under `parent`, and leaves groups that are right.
  abbrev IsRight : Option String → Option (Forest × Maps) → Type 0
  IsRight parent none = Unit
  IsRight parent (some (forest, left)) = IsPlaced parent forest × AreGrouped left.children_by_parent

  built_rest-IsRight :
      (parent : Option String) (r : Resource) (ps : List Permission) (children : Forest)
      (o : Option (Forest × Maps))
      → visible_parent visible r ≡ parent
      → IsPlaced (some r.id) children
      → IsRight parent o
      → IsRight parent (built_rest r ps children o)
  unfolding IsPlaced
  built_rest-IsRight parent r ps children none is below right = tt
  built_rest-IsRight parent r ps children (some (siblings, left)) is below (right, grouped) =
      (((is, below), right), grouped)

  built_node-IsRight :
      (parent : Option String) (r : Resource) (ps : List Permission)
      (rest : Maps → Option (Forest × Maps)) (o : Option (Forest × Maps))
      → visible_parent visible r ≡ parent
      → IsRight (some r.id) o
      → ((left : Maps) → AreGrouped left.children_by_parent → IsRight parent (rest left))
      → IsRight parent (built_node r ps rest o)
  built_node-IsRight parent r ps rest none is below next = tt
  built_node-IsRight parent r ps rest (some (children, left)) is (below, grouped) next =
      built_rest-IsRight parent r ps children (rest left) is below (next left grouped)

  build_children-IsRight :
      (level : Option String → Maps → Option (Forest × Maps))
      → ((parent : Option String) (m : Maps)
          → AreGrouped m.children_by_parent
          → IsRight parent (level parent m))
      → (parent : Option String) (rs : List Resource) (maps : Maps) → AreOf parent rs
      → AreGrouped maps.children_by_parent
      → IsRight parent (build_children level rs maps)
  unfolding build_children IsPlaced
  build_children-IsRight level right parent [] maps of grouped = (tt, grouped)
  build_children-IsRight level right parent (r ∷ rs) maps (is, of) grouped =
      let inner = record maps { permission_map = remove r.id maps.permission_map } in
      built_node-IsRight parent r _ _ (level (some r.id) inner) is (right (some r.id) inner grouped)
        (λ left grouped'. build_children-IsRight level right parent rs left of grouped')

  build_level-IsRight :
      (fuel : ℕ) (parent : Option String) (maps : Maps)
      → AreGrouped maps.children_by_parent
      → IsRight parent (build_level fuel parent maps)
  unfolding build_level
  build_level-IsRight zero parent maps grouped = tt
  build_level-IsRight (suc fuel) parent maps grouped =
      let gs = maps.children_by_parent in
      let taken = take_children-AreOf parent gs grouped in
      build_children-IsRight (build_level fuel) (build_level-IsRight fuel) parent
        (sort_children (take_children parent gs).0)
        (record maps { children_by_parent = (take_children parent gs).1 })
        (sort_children-AreOf parent (take_children parent gs).0 taken.0) taken.1

-- At the top of the tree stand resources without a visible parent, and below each node resources
-- whose visible parent it is; what is left over is grouped by its visible parent.
pub build_tree-IsPlaced :
    (resources : List Resource) (permission_map : StrMap (List Permission)) (forest : Forest)
    (left : Maps)
    → build_tree resources permission_map ≡ some (forest, left)
    → IsPlaced resources none forest × AreGrouped resources left.children_by_parent
unfolding build_tree
build_tree-IsPlaced resources permission_map forest left built =
    let gs = group_children resources resources [] in
    let maps : Maps = record { children_by_parent = gs; permission_map = permission_map } in
    subst (IsRight resources none) built (
      build_level-IsRight resources (suc (length gs)) none maps
        (group_children-AreGrouped resources resources [] tt))
