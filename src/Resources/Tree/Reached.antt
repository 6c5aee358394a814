-- ===== src/Resources/Tree/Reached.antt =====
-- Every group that the tree reaches is built: none is left for the top or for a node's resource.
use mathlib.Core.Path.{subst}
use keylo.Base.{
  ℕ, suc, zero, String, Bool, true, false, ◌||◌, Option, none, some, List, [], ◌∷◌, ◌≡◌, refl, ap,
  arith, length, eq_iff, StrMap, remove, Bool-cases, inl, inr,
}
use keylo.Session.Tables.{same_text}
use keylo.Resources.Tree.{
  Permission, Resource, ResourceTreeNode, node, Forest, nil, cons, Maps, visible_parent, push_child,
  group_children, take_children, sort_children, built_rest, built_node, build_children, build_level,
  build_tree,
}

abbrev pub Groups : Type 0
Groups = List (Option String × List Resource)

-- A group waits under this parent.
abbrev pub has_group : Option String → Groups → Bool
has_group parent [] = false
has_group parent ((key, group) ∷ gs) = same_text key parent || has_group parent gs

-- No group waits for the children of a node of the forest.
unfoldable mutual
  pub IsDrained : Groups → Forest → Type 0
  IsDrained gs nil = Unit
  IsDrained gs (cons n forest) = IsDrainedNode gs n × IsDrained gs forest

  pub IsDrainedNode : Groups → ResourceTreeNode → Type 0
  IsDrainedNode gs (node r ps children) = (has_group (some r.id) gs ≡ false) × IsDrained gs children

-- A map has one entry for a key.
abbrev AreDistinct : Groups → Type 0
AreDistinct [] = Unit
AreDistinct ((key, group) ∷ gs) = (has_group key gs ≡ false) × AreDistinct gs

same_text_comm : (a b : Option String) → same_text a b ≡ same_text b a
same_text_comm none none = refl
same_text_comm none (some b) = refl
same_text_comm (some a) none = refl
same_text_comm (some a) (some b) = ground (arith, eq_iff a b, eq_iff b a)

same_text-eq : (a b : Option String) → same_text a b ≡ true → a ≡ b
same_text-eq none none same = refl
same_text-eq none (some b) same = cc
same_text-eq (some a) none same = cc
same_text-eq (some a) (some b) same = ap some ((eq_iff a b).0 same)

push_child-has_group :
    (p q : Option String) (r : Resource) (gs : Groups)
    → has_group q (push_child p r gs) ≡ (same_text p q || has_group q gs)
push_child-has_group p q r [] = refl
push_child-has_group p q r ((key, group) ∷ gs) = elim (Bool-cases (same_text key p)) [
  | inl same ↦ let eq : key ≡ p = same_text-eq key p same in rw (same, eq) (ground arith)
  | inr other ↦ rw other (ground (arith, push_child-has_group p q r gs))
]

push_child-AreDistinct :
    (p : Option String) (r : Resource) (gs : Groups)
    → AreDistinct gs
    → AreDistinct (push_child p r gs)
push_child-AreDistinct p r [] d = (refl, tt)
push_child-AreDistinct p r ((key, group) ∷ gs) (alone, d) = elim (Bool-cases (same_text key p)) [
  | inl same ↦ rw same (alone, d)
  | inr other ↦ rw other (
    ground (arith, push_child-has_group p key r gs, same_text_comm p key, other, alone),
    push_child-AreDistinct p r gs d,
  )
]

group_children-AreDistinct :
    (visible rs : List Resource) (gs : Groups)
    → AreDistinct gs
    → AreDistinct (group_children visible rs gs)
group_children-AreDistinct visible [] gs d = d
group_children-AreDistinct visible (r ∷ rs) gs d =
    group_children-AreDistinct visible rs (push_child (visible_parent visible r) r gs)
      (push_child-AreDistinct (visible_parent visible r) r gs d)

-- Taking a group brings none back.
take_children-keeps :
    (p q : Option String) (gs : Groups)
    → has_group q gs ≡ false
    → has_group q (take_children p gs).1 ≡ false
take_children-keeps p q [] absent = refl
take_children-keeps p q ((key, group) ∷ gs) absent = elim (Bool-cases (same_text key p)) [
  | inl same ↦ rw same (ground (arith, absent))
  | inr other ↦ rw other (ground (arith, absent, take_children-keeps p q gs))
]

take_children-AreDistinct :
    (p : Option String) (gs : Groups)
    → AreDistinct gs
    → AreDistinct (take_children p gs).1 × (has_group p (take_children p gs).1 ≡ false)
take_children-AreDistinct p [] d = (tt, refl)
take_children-AreDistinct p ((key, group) ∷ gs) (alone, d) = elim (Bool-cases (same_text key p)) [
  | inl same ↦
      let eq : key ≡ p = same_text-eq key p same in
      rw same (d, subst (λ k. has_group k gs ≡ false) eq alone)
  | inr other ↦
      let (d', gone) = take_children-AreDistinct p gs d in
      rw other ((take_children-keeps p key gs alone, d'), ground (arith, other, gone))
]

-- Groups that come from these by taking some.
abbrev IsLess : Groups → Groups → Type 0
IsLess gs gs' = (q : Option String) → has_group q gs ≡ false → has_group q gs' ≡ false

mutual
  unfolding IsDrained IsDrainedNode

  less-IsDrained :
      (gs gs' : Groups) → IsLess gs gs' → (f : Forest) → IsDrained gs f → IsDrained gs' f
  less-IsDrained gs gs' less nil d = tt
  less-IsDrained gs gs' less (cons n f) (here, rest) =
      (less-IsDrainedNode gs gs' less n here, less-IsDrained gs gs' less f rest)

  less-IsDrainedNode :
      (gs gs' : Groups)
      → IsLess gs gs'
      → (n : ResourceTreeNode) → IsDrainedNode gs n
      → IsDrainedNode gs' n
  less-IsDrainedNode gs gs' less (node r ps children) (gone, below) =
      (less (some r.id) gone, less-IsDrained gs gs' less children below)

-- An answer that took groups from `gs`, and every group of its nodes.
abbrev Drains : Groups → Option (Forest × Maps) → Type 0
Drains gs none = Unit
Drains gs (some (forest, left)) =
    AreDistinct left.children_by_parent
    × IsLess gs left.children_by_parent
    × IsDrained left.children_by_parent forest

-- The same, and the group of `parent`.
abbrev Empties : Option String → Groups → Option (Forest × Maps) → Type 0
Empties parent gs none = Unit
Empties parent gs (some (forest, left)) =
    Drains gs (some (forest, left)) × (has_group parent left.children_by_parent ≡ false)

built_rest-Drains :
    (r : Resource) (ps : List Permission) (children : Forest) (gs gs' : Groups)
    (o : Option (Forest × Maps))
    → IsLess gs gs'
    → has_group (some r.id) gs' ≡ false
    → IsDrained gs' children
    → Drains gs' o
    → Drains gs (built_rest r ps children o)
unfolding IsDrained IsDrainedNode
built_rest-Drains r ps children gs gs' none less gone below d = tt
built_rest-Drains r ps children gs gs' (some (siblings, left)) less gone below
      (distinct, less', d) =
    (
      distinct,
      λ q absent. less' q (less q absent),
      (
        (less' (some r.id) gone, less-IsDrained gs' left.children_by_parent less' children below),
        d,
      ),
    )

built_node-Drains :
    (r : Resource) (ps : List Permission) (rest : Maps → Option (Forest × Maps)) (gs : Groups)
    (o : Option (Forest × Maps))
    → Empties (some r.id) gs o
    → ((left : Maps)
        → AreDistinct left.children_by_parent
        → Drains left.children_by_parent (rest left))
    → Drains gs (built_node r ps rest o)
built_node-Drains r ps rest gs none e next = tt
built_node-Drains r ps rest gs (some (children, left)) ((distinct, less, below), gone) next =
    built_rest-Drains r ps children gs left.children_by_parent (rest left) less gone below
      (next left distinct)

build_children-Drains :
    (level : Option String → Maps → Option (Forest × Maps))
    → ((parent : Option String) (m : Maps)
        → AreDistinct m.children_by_parent
        → Empties parent m.children_by_parent (level parent m))
    → (rs : List Resource) (maps : Maps) → AreDistinct maps.children_by_parent
    → Drains maps.children_by_parent (build_children level rs maps)
unfolding build_children IsDrained
build_children-Drains level e [] maps distinct = (distinct, (λ q absent. absent), tt)
build_children-Drains level e (r ∷ rs) maps distinct =
    let inner = record maps { permission_map = remove r.id maps.permission_map } in
    built_node-Drains r _ _ maps.children_by_parent (level (some r.id) inner)
      (e (some r.id) inner distinct)
      (λ left distinct'. build_children-Drains level e rs left distinct')

drained-Empties :
    (parent : Option String) (gs gs' : Groups) (o : Option (Forest × Maps))
    → IsLess gs gs'
    → has_group parent gs' ≡ false
    → Drains gs' o
    → Empties parent gs o
drained-Empties parent gs gs' none less gone d = tt
drained-Empties parent gs gs' (some (forest, left)) less gone (distinct, less', d) =
    ((distinct, (λ q absent. less' q (less q absent)), d), less' parent gone)

build_level-Empties :
    (fuel : ℕ) (parent : Option String) (maps : Maps)
    → AreDistinct maps.children_by_parent
    → Empties parent maps.children_by_parent (build_level fuel parent maps)
unfolding build_level
build_level-Empties zero parent maps distinct = tt
build_level-Empties (suc fuel) parent maps distinct =
    let gs = maps.children_by_parent in
    let (distinct', gone) = take_children-AreDistinct parent gs distinct in
    let rest = (take_children parent gs).1 in
    drained-Empties parent gs rest
      (build_children (build_level fuel) (sort_children (take_children parent gs).0)
        (record maps { children_by_parent = rest }))
      (λ q absent. take_children-keeps parent q gs absent) gone
      (build_children-Drains (build_level fuel) (build_level-Empties fuel)
        (sort_children (take_children parent gs).0) (record maps { children_by_parent = rest })
        distinct')

-- No group is left for the top, nor for the children of any node of the tree.
pub build_tree-IsDrained :
    (resources : List Resource) (permission_map : StrMap (List Permission)) (forest : Forest)
    (left : Maps)
    → build_tree resources permission_map ≡ some (forest, left)
    → (has_group none left.children_by_parent ≡ false) × IsDrained left.children_by_parent forest
unfolding build_tree
build_tree-IsDrained resources permission_map forest left built =
    let gs = group_children resources resources [] in
    let maps : Maps = record { children_by_parent = gs; permission_map = permission_map } in
    let ((_, _, drained), top) = subst (Empties none gs) built (
      build_level-Empties (suc (length gs)) none maps
        (group_children-AreDistinct resources resources [] tt)) in
    (top, drained)
