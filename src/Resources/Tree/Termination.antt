-- ===== src/Resources/Tree/Termination.antt =====
-- The tree is finite: each level takes its group out of the map.
use keylo.Base.{
  ℕ, suc, zero, ◌≤◌, ◌<◌, ◌⊎◌, String, Option, none, some, List, [], ◌∷◌, ◌≡◌, refl, arith, length,
  StrMap, remove, Bool-cases, inl, inr,
}
use keylo.Session.Tables.{same_text}
use keylo.Resources.Tree.{
  Permission, Resource, Forest, Maps, take_children, sort_children, group_children, built_rest,
  built_node, build_children, build_level, build_tree,
}

abbrev groups : Maps → ℕ
groups maps = length maps.children_by_parent

-- An answer that was given, and left no more groups than there were.
abbrev IsBuilt : ℕ → Option (Forest × Maps) → Type 0
IsBuilt n none = ⊥
IsBuilt n (some (forest, left)) = groups left ≤ n

-- A parent with children has a group, which is taken; a parent without one leaves the map alone.
take_children-length :
    (parent : Option String) (gs : List (Option String × List Resource))
    → let (children, rest) = take_children parent gs in
      (children ≡ []) × (length rest ≤ length gs) ⊎ (length rest < length gs)
take_children-length parent [] = inl (refl, omega arith)
take_children-length parent ((key, group) ∷ gs) = elim (Bool-cases (same_text key parent)) [
  | inl same ↦ rw same (inr (omega arith))
  | inr other ↦ elim (take_children-length parent gs) [
    | inl (absent, le) ↦ rw other (inl (absent, omega (arith, le)))
    | inr lt ↦ rw other (inr (omega (arith, lt)))
  ]
]

weaken : {m n : ℕ} (o : Option (Forest × Maps)) → IsBuilt m o → m < n → IsBuilt n o
weaken none built lt = built
weaken (some (forest, left)) built lt = omega (arith, built, lt)

built_rest-IsBuilt :
    (r : Resource) (ps : List Permission) (children : Forest) (m n : ℕ) (o : Option (Forest × Maps))
    → IsBuilt m o
    → m ≤ n
    → IsBuilt n (built_rest r ps children o)
built_rest-IsBuilt r ps children m n none built le = built
built_rest-IsBuilt r ps children m n (some (siblings, left)) built le = omega (arith, built, le)

built_node-IsBuilt :
    (r : Resource) (ps : List Permission) (rest : Maps → Option (Forest × Maps)) (n : ℕ)
    (o : Option (Forest × Maps))
    → IsBuilt n o
    → ((left : Maps) → groups left ≤ n → IsBuilt (groups left) (rest left))
    → IsBuilt n (built_node r ps rest o)
built_node-IsBuilt r ps rest n none built next = built
built_node-IsBuilt r ps rest n (some (children, left)) built next =
    built_rest-IsBuilt r ps children (groups left) n (rest left) (next left built) built

build_children-IsBuilt :
    (level : Option String → Maps → Option (Forest × Maps)) (n : ℕ)
    → ((parent : Option String) (m : Maps) → groups m ≤ n → IsBuilt (groups m) (level parent m))
    → (rs : List Resource) (maps : Maps) → groups maps ≤ n
    → IsBuilt (groups maps) (build_children level rs maps)
unfolding build_children
build_children-IsBuilt level n built [] maps le = omega arith
build_children-IsBuilt level n built (r ∷ rs) maps le =
    let inner = record maps { permission_map = remove r.id maps.permission_map } in
    built_node-IsBuilt r _ _ (groups maps) (level (some r.id) inner) (built (some r.id) inner le)
      (λ left fewer. build_children-IsBuilt level n built rs left (omega (arith, fewer, le)))

build_level-IsBuilt :
    (fuel : ℕ) (parent : Option String) (maps : Maps)
    → groups maps < fuel
    → IsBuilt (groups maps) (build_level fuel parent maps)
unfolding build_level build_children
build_level-IsBuilt zero parent maps enough = omega (arith, enough)
build_level-IsBuilt (suc fuel) parent maps enough =
    let rest = (take_children parent maps.children_by_parent).1 in
    let taken : Maps = record maps { children_by_parent = rest } in
    elim (take_children-length parent maps.children_by_parent) [
      | inl (absent, le) ↦ rw absent le
      | inr lt ↦
          let children = sort_children (take_children parent maps.children_by_parent).0 in
          let enough' : groups taken < fuel = omega (arith, lt, enough) in
          weaken (build_children (build_level fuel) children taken)
            (build_children-IsBuilt (build_level fuel) (groups taken)
              (λ p m le. build_level-IsBuilt fuel p m (omega (arith, le, enough'))) children taken
              (omega arith))
            lt
    ]

pub IsBuilt-some :
    (n : ℕ) (o : Option (Forest × Maps))
    → IsBuilt n o
    → (forest : Forest) × (left : Maps) × (o ≡ some (forest, left))
IsBuilt-some n none built = elim built [ ]
IsBuilt-some n (some (forest, left)) built = (forest, left, refl)

-- The tree is always built: the fuel of one more than the number of groups is enough, whatever the
-- parents are, even when they form cycles.
pub build_tree-some :
    (resources : List Resource) (permission_map : StrMap (List Permission))
    → (forest : Forest) × (left : Maps) × (build_tree resources permission_map
        ≡ some (forest, left))
unfolding build_tree
build_tree-some resources permission_map =
    let gs = group_children resources resources [] in
    IsBuilt-some (length gs) _ (
      build_level-IsBuilt (suc (length gs)) none
        (record { children_by_parent = gs; permission_map = permission_map }) (omega arith))
