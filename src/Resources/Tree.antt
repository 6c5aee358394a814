-- ===== src/Resources/Tree.antt =====
-- `build_tree` of src/db/resource.rs: the resources that are visible, grouped by their visible
-- parent and built from the top. The recursion runs on fuel; Resources/Tree/Termination.antt says how
-- much is enough.
pub mod Termination
pub mod Conservation
pub mod Placement
pub mod Reached
pub mod Shape
use Prim.Native.Nat.{Ordering, compare}
use Prim.Native.String as PrimString
use keylo.Base.Results.{ℤ, pos, negsuc}
use keylo.Base.{
  ℕ, suc, zero, String, Bool, true, false, ◌||◌, Option, none, some, List, [], ◌∷◌, ◌++◌, ◌==◌, any,
  length, unwrap_or, if◌then◌else◌, StrMap, remove,
}
use keylo.Session.Tables.{same_text}

pub record Permission : Type 0 where
  pub id : String
  pub name : String
  pub description : Option String
  pub version : ℕ
  pub created_at : ℕ
  pub updated_at : ℕ

-- `metadata` is the text of the JSON value.
pub record Resource : Type 0 where
  pub id : String
  pub organization_id : Option String
  pub app : String
  pub resource_type : String
  pub code : String
  pub name : String
  pub parent_id : Option String
  pub display_order : ℤ
  pub description : Option String
  pub metadata : Option String
  pub active : Bool
  pub version : ℕ
  pub created_at : ℕ
  pub updated_at : ℕ

-- A node with its resource, its permissions and its children, and a list of nodes.
mutual
  pub data ResourceTreeNode : Type 0 where
    node :
        (resource : Resource) (permissions : List Permission) (children : Forest) → ResourceTreeNode

  pub data Forest : Type 0 where
    nil : Forest
    cons : ResourceTreeNode → Forest → Forest

-- The two maps that the recursion takes entries from.
pub record Maps : Type 0 where
  pub children_by_parent : List (Option String × List Resource)
  pub permission_map : StrMap (List Permission)

abbrev pub keep_visible : List Resource → Option String → Option String
keep_visible visible none = none
keep_visible visible (some id) = if any (λ v. v.id == id) visible then some id else none

-- The parent, if it is visible itself.
abbrev pub visible_parent : List Resource → Resource → Option String
visible_parent visible r = keep_visible visible r.parent_id

-- entry(parent).or_default().push(resource)
abbrev pub push_child :
    Option String
    → Resource
    → List (Option String × List Resource)
    → List (Option String × List Resource)
push_child parent r [] = (parent, r ∷ []) ∷ []
push_child parent r ((key, group) ∷ groups) =
    let rest = push_child parent r groups in
    if same_text key parent then (key, group ++ r ∷ []) ∷ groups else (key, group) ∷ rest

abbrev pub group_children :
    List Resource
    → List Resource
    → List (Option String × List Resource)
    → List (Option String × List Resource)
group_children visible [] groups = groups
group_children visible (r ∷ rs) groups =
    group_children visible rs (push_child (visible_parent visible r) r groups)

-- children_by_parent.remove(&parent_id).unwrap_or_default(), and what is left.
abbrev pub take_children :
    Option String
    → List (Option String × List Resource)
    → List Resource × List (Option String × List Resource)
take_children parent [] = ([], [])
take_children parent ((key, group) ∷ groups) =
    let (found, rest) = take_children parent groups in
    if same_text key parent then (group, groups) else (found, (key, group) ∷ rest)

abbrev pub compare_ℤ : ℤ → ℤ → Ordering
compare_ℤ (pos a) (pos b) = compare a b
compare_ℤ (pos a) (negsuc b) = Ordering.gt
compare_ℤ (negsuc a) (pos b) = Ordering.lt
compare_ℤ (negsuc a) (negsuc b) = compare b a

abbrev pub then_with : Ordering → Ordering → Ordering
then_with Ordering.eq o = o
then_with Ordering.lt o = Ordering.lt
then_with Ordering.gt o = Ordering.gt

abbrev pub is_after : Ordering → Bool
is_after Ordering.gt = true
is_after Ordering.lt = false
is_after Ordering.eq = false

-- Whether `left` comes after `right`: by `display_order`, then by `code`.
abbrev pub comes_after : Resource → Resource → Bool
comes_after left right = is_after (
    then_with (compare_ℤ left.display_order right.display_order)
      (PrimString.compare left.code right.code))

-- `sort_by`, which is stable.
abbrev pub insert_child : Resource → List Resource → List Resource
insert_child r [] = r ∷ []
insert_child r (x ∷ xs) =
    let rest = insert_child r xs in if comes_after r x then x ∷ rest else r ∷ x ∷ xs

abbrev pub sort_children : List Resource → List Resource
sort_children [] = []
sort_children (r ∷ rs) = insert_child r (sort_children rs)

abbrev pub built_rest :
    Resource → List Permission → Forest → Option (Forest × Maps) → Option (Forest × Maps)
built_rest r permissions children none = none
built_rest r permissions children (some (siblings, maps)) =
    some (cons (node r permissions children) siblings, maps)

-- The children one by one, each with what the earlier ones left of the maps.
abbrev pub built_node :
    Resource
    → List Permission
    → (Maps → Option (Forest × Maps))
    → Option (Forest × Maps)
    → Option (Forest × Maps)
built_node r permissions rest none = none
built_node r permissions rest (some (children, left)) =
    built_rest r permissions children (rest left)

unfoldable pub build_children :
    (Option String → Maps → Option (Forest × Maps)) → List Resource → Maps → Option (Forest × Maps)
build_children level [] maps = some (nil, maps)
build_children level (r ∷ rs) maps =
    built_node r (unwrap_or (maps.permission_map r.id) []) (λ left. build_children level rs left)
      (level (some r.id) (record maps { permission_map = remove r.id maps.permission_map }))

unfoldable pub build_level : ℕ → Option String → Maps → Option (Forest × Maps)
build_level zero parent maps = none
build_level (suc fuel) parent maps =
    let (children, rest) = take_children parent maps.children_by_parent in
    build_children (build_level fuel) (sort_children children)
      (record maps { children_by_parent = rest })

unfoldable pub build_tree : List Resource → StrMap (List Permission) → Option (Forest × Maps)
build_tree resources permission_map =
    let groups = group_children resources resources [] in
    build_level (suc (length groups)) none
      (record { children_by_parent = groups; permission_map = permission_map })
