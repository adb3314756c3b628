-- ===== src/Antlr/Concrete.antt =====
-- A tree type with its operations, which shows that the laws of the interface can be met and lets
-- the definitions run on an input.
use Prim.Native.Nat.{max}
use pgify.Base.{
  ℕ, zero, suc, ◌<◌, ◌≡◌, refl, ap, ◌∙◌, false, String, some, List, [], ◌∷◌, ◌++◌, length,
  get_elem?, set, remove_at, ℤ, arith,
}
use pgify.Antlr.{Antlr}

-- type, text, line and column of the token, and the children
mutual
  pub data Tree : Type 0 where
    node : ℕ → String → ℤ → ℤ → Forest → Tree

  pub data Forest : Type 0 where
    nil : Forest
    cons : Tree → Forest → Forest

abbrev pub to_list : Forest → List Tree
to_list nil = []
to_list (cons t f) = t ∷ to_list f

abbrev pub of_list : List Tree → Forest
of_list [] = nil
of_list (t ∷ l) = cons t (of_list l)

pub to_list-of_list : (l : List Tree) → to_list (of_list l) ≡ l
to_list-of_list [] = refl
to_list-of_list (t ∷ l) = ap (◌∷◌ t) (to_list-of_list l)

abbrev pub kind_of : Tree → ℕ
kind_of (node k s l p f) = k

abbrev pub text_of : Tree → String
text_of (node k s l p f) = s

abbrev pub line_of : Tree → ℤ
line_of (node k s l p f) = l

abbrev pub column_of : Tree → ℤ
column_of (node k s l p f) = p

abbrev pub below : Tree → List Tree
below (node k s l p f) = to_list f

abbrev pub with_below : List Tree → Tree → Tree
with_below c (node k s l p f) = node k s l p (of_list c)

abbrev pub with_text : Tree → String → Tree
with_text (node k s l p f) s' = node k s' l p f

unfoldable mutual
  pub height_of : Tree → ℕ
  height_of (node k s l p f) = suc (height_all f)

  pub height_all : Forest → ℕ
  height_all nil = 0
  height_all (cons t f) = max (height_of t) (height_all f)

height_all-le :
    (f : Forest) (c : Tree) (i : ℕ)
    → get_elem? (to_list f) i ≡ some c
    → height_of c < suc (height_all f)
unfolding height_of
height_all-le nil c i h = cc
height_all-le (cons t f) c zero h = ground arith
height_all-le (cons t f) c (suc i) h = omega (arith, height_all-le f c i h)

pub height-below : (t c : Tree) (i : ℕ) → get_elem? (below t) i ≡ some c → height_of c < height_of t
unfolding height_of
height-below (node k s l p f) c i h = unfold height_of in height_all-le f c i h

pub below-with_below : (c : List Tree) (t : Tree) → below (with_below c t) ≡ c
below-with_below c (node k s l p f) = to_list-of_list c

pub kind-with_below : (c : List Tree) (t : Tree) → kind_of (with_below c t) ≡ kind_of t
kind-with_below c (node k s l p f) = refl

pub text-with_below : (c : List Tree) (t : Tree) → text_of (with_below c t) ≡ text_of t
text-with_below c (node k s l p f) = refl

pub kind-with_text : (t : Tree) (s : String) → kind_of (with_text t s) ≡ kind_of t
kind-with_text (node k s l p f) s' = refl

pub text-with_text : (t : Tree) (s : String) → text_of (with_text t s) ≡ s
text-with_text (node k s l p f) s' = refl

pub below-with_text : (t : Tree) (s : String) → below (with_text t s) ≡ below t
below-with_text (node k s l p f) s' = refl

of_list-to_list : (f : Forest) → of_list (to_list f) ≡ f
of_list-to_list nil = refl
of_list-to_list (cons t f) = ap (cons t) (of_list-to_list f)

set-get_elem? : (l : List Tree) (i : ℕ) (c : Tree) → get_elem? l i ≡ some c → set l i c ≡ l
set-get_elem? [] i c h = cc
set-get_elem? (x ∷ l) zero c h = cc
set-get_elem? (x ∷ l) (suc i) c h = ap (◌∷◌ x) (set-get_elem? l i c h)

pub with_below-set :
    (t : Tree) (i : ℕ) (c : Tree)
    → get_elem? (below t) i ≡ some c
    → with_below (set (below t) i c) t ≡ t
with_below-set (node k s l p f) i c h =
    ap (node k s l p) (ap of_list (set-get_elem? (to_list f) i c h) ∙ of_list-to_list f)

instance abbrev pub concrete : Antlr Tree
concrete = record {
  get_type = kind_of;
  get_text = text_of;
  to_string = text_of;
  get_line = line_of;
  get_char_position = column_of;
  get_child_count = λ t. length (below t);
  get_child = λ t i. get_elem? (below t) i;
  is_nil_node = λ t. false;
  set_text = with_text;
  set_child = λ t i c. with_below (set (below t) i c) t;
  delete_child = λ t i. with_below (remove_at (below t) i) t;
  add_child = λ t c. with_below (below t ++ c ∷ []) t;
  dup_tree = λ t. t;
  children = below;
  height = height_of;
  get_child_count_lem = λ t. refl;
  get_child_lem = λ t i. refl;
  height-child = height-below;
  children-delete_child = λ t i. below-with_below (remove_at (below t) i) t;
  children-set_child = λ t i c. below-with_below (set (below t) i c) t;
  set_child-get_child = with_below-set;
  children-add_child = λ t c h. below-with_below (below t ++ c ∷ []) t;
  children-set_text = below-with_text;
  type-delete_child = λ t i. kind-with_below (remove_at (below t) i) t;
  type-set_child = λ t i c. kind-with_below (set (below t) i c) t;
  type-add_child = λ t c. kind-with_below (below t ++ c ∷ []) t;
  type-set_text = kind-with_text;
  type-dup_tree = λ t. refl;
  text-delete_child = λ t i. text-with_below (remove_at (below t) i) t;
  text-set_child = λ t i c. text-with_below (set (below t) i c) t;
  text-add_child = λ t c. text-with_below (below t ++ c ∷ []) t;
  text-set_text = text-with_text;
  text-dup_tree = λ t. refl;
  children-dup_tree = λ t. refl;
  nil-dup_tree = λ t. refl;
}
