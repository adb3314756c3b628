-- ===== src/Antlr.antt =====
-- The tree interface of the ANTLR C runtime (pANTLR3_BASE_TREE), which pgify.c calls and which is
-- not part of the repository. It is a parameter of every definition that walks a tree: a record of
-- operations, with the documented behaviour that the code relies on as its laws.
-- A pointer to a child aliases the child that its parent holds, so a change made through it is
-- written back by `set_child`.
pub mod Concrete
use pgify.Base.{
  ℕ, zero, suc, ◌+◌, ◌<◌, ◌≡◌, Bool, false, String, Option, none, some, List, [], ◌∷◌, ◌++◌, length,
  get_elem?, set, remove_at, ℤ,
}

pub record Antlr (T : Type 0) : Type 0 where
  -- reads
  pub get_type : T → ℕ
  pub get_text : T → String
  pub to_string : T → String
  pub get_line : T → ℤ
  pub get_char_position : T → ℤ
  pub get_child_count : T → ℕ
  pub get_child : T → ℕ → Option T
  pub is_nil_node : T → Bool
  -- writes, with the node as they leave it
  pub set_text : T → String → T
  pub set_child : T → ℕ → T → T
  pub delete_child : T → ℕ → T
  pub add_child : T → T → T
  pub dup_tree : T → T
  -- the vector of children, and a bound on the depth of a tree: neither is called by the code
  pub children : T → List T
  pub height : T → ℕ
  -- a node's children are counted and read through the vector; NULL stands for no child
  pub get_child_count_lem : (t : T) → get_child_count t ≡ length (children t)
  pub get_child_lem : (t : T) (i : ℕ) → get_child t i ≡ get_elem? (children t) i
  pub height-child : (t c : T) (i : ℕ) → get_elem? (children t) i ≡ some c → height c < height t
  -- the writes to the vector
  pub children-delete_child :
      (t : T) (i : ℕ) → children (delete_child t i) ≡ remove_at (children t) i
  pub children-set_child :
      (t : T) (i : ℕ) (c : T) → children (set_child t i c) ≡ set (children t) i c
  -- writing back the child that stands there changes nothing
  pub set_child-get_child :
      (t : T) (i : ℕ) (c : T) → get_elem? (children t) i ≡ some c → set_child t i c ≡ t
  pub children-add_child :
      (t c : T) → is_nil_node c ≡ false → children (add_child t c) ≡ children t ++ c ∷ []
  pub children-set_text : (t : T) (s : String) → children (set_text t s) ≡ children t
  -- the token of a node is changed by `set_text` alone, and only in its text
  pub type-delete_child : (t : T) (i : ℕ) → get_type (delete_child t i) ≡ get_type t
  pub type-set_child : (t : T) (i : ℕ) (c : T) → get_type (set_child t i c) ≡ get_type t
  pub type-add_child : (t c : T) → get_type (add_child t c) ≡ get_type t
  pub type-set_text : (t : T) (s : String) → get_type (set_text t s) ≡ get_type t
  pub type-dup_tree : (t : T) → get_type (dup_tree t) ≡ get_type t
  pub text-delete_child : (t : T) (i : ℕ) → get_text (delete_child t i) ≡ get_text t
  pub text-set_child : (t : T) (i : ℕ) (c : T) → get_text (set_child t i c) ≡ get_text t
  pub text-add_child : (t c : T) → get_text (add_child t c) ≡ get_text t
  pub text-set_text : (t : T) (s : String) → get_text (set_text t s) ≡ s
  pub text-dup_tree : (t : T) → get_text (dup_tree t) ≡ get_text t
  -- a copy has the children of the original, and is the nil node only if the original is
  pub children-dup_tree : (t : T) → children (dup_tree t) ≡ children t
  pub nil-dup_tree : (t : T) → is_nil_node (dup_tree t) ≡ is_nil_node t

-- The operations and laws of the tree interface at hand.
module _ {T : Type 0} ⦃a : Antlr T⦄ where
  abbrev pub get_type : T → ℕ
  get_type = a.get_type

  abbrev pub get_text : T → String
  get_text = a.get_text

  abbrev pub to_string : T → String
  to_string = a.to_string

  abbrev pub get_line : T → ℤ
  get_line = a.get_line

  abbrev pub get_char_position : T → ℤ
  get_char_position = a.get_char_position

  abbrev pub get_child_count : T → ℕ
  get_child_count = a.get_child_count

  abbrev pub get_child : T → ℕ → Option T
  get_child = a.get_child

  abbrev pub is_nil_node : T → Bool
  is_nil_node = a.is_nil_node

  abbrev pub set_text : T → String → T
  set_text = a.set_text

  abbrev pub set_child : T → ℕ → T → T
  set_child = a.set_child

  abbrev pub delete_child : T → ℕ → T
  delete_child = a.delete_child

  abbrev pub add_child : T → T → T
  add_child = a.add_child

  abbrev pub dup_tree : T → T
  dup_tree = a.dup_tree

  abbrev pub children : T → List T
  children = a.children

  abbrev pub height : T → ℕ
  height = a.height

  pub get_child_count_lem : (t : T) → get_child_count t ≡ length (children t)
  get_child_count_lem = a.get_child_count_lem

  pub get_child_lem : (t : T) (i : ℕ) → get_child t i ≡ get_elem? (children t) i
  get_child_lem = a.get_child_lem

  pub children-delete_child :
      (t : T) (i : ℕ) → children (delete_child t i) ≡ remove_at (children t) i
  children-delete_child = a.children-delete_child

  pub children-set_child :
      (t : T) (i : ℕ) (c : T) → children (set_child t i c) ≡ set (children t) i c
  children-set_child = a.children-set_child

  pub children-add_child :
      (t c : T) → is_nil_node c ≡ false → children (add_child t c) ≡ children t ++ c ∷ []
  children-add_child = a.children-add_child

  pub children-set_text : (t : T) (s : String) → children (set_text t s) ≡ children t
  children-set_text = a.children-set_text

  pub set_child-get_child :
      (t : T) (i : ℕ) (c : T) → get_elem? (children t) i ≡ some c → set_child t i c ≡ t
  set_child-get_child = a.set_child-get_child

  pub type-delete_child : (t : T) (i : ℕ) → get_type (delete_child t i) ≡ get_type t
  type-delete_child = a.type-delete_child

  pub type-set_child : (t : T) (i : ℕ) (c : T) → get_type (set_child t i c) ≡ get_type t
  type-set_child = a.type-set_child

  pub type-add_child : (t c : T) → get_type (add_child t c) ≡ get_type t
  type-add_child = a.type-add_child

  pub type-set_text : (t : T) (s : String) → get_type (set_text t s) ≡ get_type t
  type-set_text = a.type-set_text

  pub type-dup_tree : (t : T) → get_type (dup_tree t) ≡ get_type t
  type-dup_tree = a.type-dup_tree

  pub text-delete_child : (t : T) (i : ℕ) → get_text (delete_child t i) ≡ get_text t
  text-delete_child = a.text-delete_child

  pub text-set_child : (t : T) (i : ℕ) (c : T) → get_text (set_child t i c) ≡ get_text t
  text-set_child = a.text-set_child

  pub text-add_child : (t c : T) → get_text (add_child t c) ≡ get_text t
  text-add_child = a.text-add_child

  pub text-set_text : (t : T) (s : String) → get_text (set_text t s) ≡ s
  text-set_text = a.text-set_text

  pub text-dup_tree : (t : T) → get_text (dup_tree t) ≡ get_text t
  text-dup_tree = a.text-dup_tree

  pub children-dup_tree : (t : T) → children (dup_tree t) ≡ children t
  children-dup_tree = a.children-dup_tree

  pub nil-dup_tree : (t : T) → is_nil_node (dup_tree t) ≡ is_nil_node t
  nil-dup_tree = a.nil-dup_tree

  pub height-child : (t c : T) (i : ℕ) → get_elem? (children t) i ≡ some c → height c < height t
  height-child = a.height-child

pub ruleset children_laws = (
  get_child_count_lem, get_child_lem, children-delete_child, children-set_child, children-set_text,
  children-dup_tree,
)

pub ruleset node_laws = (
  type-delete_child, type-set_child, type-add_child, type-set_text, type-dup_tree,
  text-delete_child, text-set_child, text-add_child, text-set_text, text-dup_tree, nil-dup_tree,
)

pub ruleset tree_laws = (children_laws, node_laws)
