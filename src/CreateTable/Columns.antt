-- ===== src/CreateTable/Columns.antt =====
-- The passes over a column definition end without a fault and keep its name.
pub mod Passes
use Prim.Native.String.{◌++◌}
use mathlib.Core.Option.{some-injective}
use mathlib.Core.Path.{subst}
use pgify.Base.{
  ℕ, zero, suc, ◌+◌, ◌<◌, ◌≤◌, ◌≡◌, ◌≢◌, refl, sym, ap, ◌∙◌, String, ◌⊎◌, inl, inr, ◌&&◌, List, [],
  ◌∷◌, Option, none, some, length, get_elem?, set, remove_at, get_elem?-set_other, ◌==◌,
  if◌then◌else◌, arith, test_of_ne,
}
use pgify.Antlr.{
  Antlr, get_type, get_text, children, get_child, get_child_count, set_child, delete_child,
  set_text, add_child, dup_tree, get_child_lem, children-set_child, children-delete_child,
  type-set_child, type-delete_child, type-add_child, type-set_text,
}
use pgify.Children.{each_of_type}
use pgify.CreateTable.Dates.{delete_not_null, rewrite_date, rewrite_date_column}
use pgify.CreateTable.Dates.Laws.{without_not_null, rewrite_date_some}
use pgify.CreateTable.Enum.{enum_or_set, rewrite_enum, rewrite_enum_column}
use pgify.Children.Count.{count-delete_child}
use pgify.CreateTable.Loops.{each_of_type-Runs}
use pgify.CreateTable.OnUpdate.{onupdate_loop, rewrite_onupdate_column, create_trigger}
use pgify.CreateTable.OnUpdate.Laws.{create_trigger-eq}
use pgify.Glib.{Glib}
use pgify.LookAhead.{look_ahead_index}
use pgify.LookAhead.Down.{look_ahead_down_lem}
use pgify.LookAhead.Laws.{IsFirstFrom, absent, present, look_ahead_index_lem}
use pgify.Result.{Result, ok, deref, ◌>>=◌}
use pgify.Result.Outcomes.{Runs, Runs-ok, Runs-bind}
use pgify.TokenTypes.{
  id, stupid_mysql_date, stupid_mysql_timestamp, rparen, k_enum, k_set, k_not, k_null,
  t_create_table_enum, t_create_table_onupdate, t_create_table_column_def,
}
use pgify.Walker.{WalkerState}

module _ {T : Type 0} ⦃a : Antlr T⦄ where
  -- A child of a type, somewhere in a list.
  abbrev pub HasType : ℕ → List T → Type 0
  HasType kind cs = (i : ℕ) × (x : T) × (get_elem? cs i ≡ some x) × (get_type x ≡ kind)

  -- The first child is an identifier.
  abbrev pub HasName : List T → Type 0
  HasName cs = (x : T) × (get_elem? cs 0 ≡ some x) × (get_type x ≡ id)

  pub HasName-set :
      (cs : List T) (p : ℕ) {x : T} (y : T)
      → get_elem? cs p ≡ some x
      → get_type y ≡ get_type x
      → HasName cs
      → HasName (set cs p y)
  HasName-set [] p y h e n = n
  HasName-set (c ∷ cs) zero y h e (z, at, k) =
      (y, refl, e ∙ ap get_type (sym (some-injective _ _ h) ∙ some-injective _ _ at) ∙ k)
  HasName-set (c ∷ cs) (suc p) y h e n = n

  pub HasName-remove_at :
      (cs : List T) (p : ℕ) {x : T}
      → get_elem? cs p ≡ some x
      → get_type x ≢ id
      → HasName cs
      → HasName (remove_at cs p)
  HasName-remove_at [] p h ne n = n
  HasName-remove_at (c ∷ cs) zero h ne (z, at, k) =
      absurd (ne (ap get_type (sym (some-injective _ _ h) ∙ some-injective _ _ at) ∙ k))
  HasName-remove_at (c ∷ cs) (suc p) h ne n = n

  HasName-without_not_null : (cs : List T) → HasName cs → HasName (without_not_null cs)
  HasName-without_not_null [] n = n
  HasName-without_not_null (x ∷ []) n = n
  HasName-without_not_null (x ∷ y ∷ ys) (z, at, k) =
      let other : get_type x ≢ k_not =
        λ e. omega (arith, sym e ∙ ap get_type (some-injective _ _ at) ∙ k) in
      rw (test_of_ne _ _ other) (z, at, k)

  -- A column definition behind a pass.
  abbrev pub KeepsName : T → T → Type 0
  KeepsName d d' = (get_type d' ≡ get_type d) × HasName (children d')

  both_found :
      (d : T)
      → HasName (children d)
      → Runs (KeepsName d) (delete_not_null (get_child_count d) 0 (get_child_count d) d)
  both_found d n =
      let (d', runs, r) = rewrite_date_some d in
      (d', runs, (r.type_kept, rw r.children_are (HasName-without_not_null (children d) n)))

  rewrite_date-Runs :
      (o o' : Option ℕ) (d : T) → HasName (children d) → Runs (KeepsName d) (rewrite_date o o' d)
  unfolding rewrite_date
  rewrite_date-Runs none none d n = Runs-ok d (refl, n)
  rewrite_date-Runs none (some p) d n = both_found d n
  rewrite_date-Runs (some p) none d n = both_found d n
  rewrite_date-Runs (some p) (some q) d n = both_found d n

  pub rewrite_date_column-Runs :
      (d : T) → HasName (children d) → Runs (KeepsName d) (rewrite_date_column d)
  unfolding rewrite_date_column
  rewrite_date_column-Runs d n =
      let (o, runs, answer) = look_ahead_down_lem d stupid_mysql_date in
      let (o', runs', answer') = look_ahead_down_lem d stupid_mysql_timestamp in
      rw (runs, runs') (rewrite_date-Runs o o' d n)

  -- An ENUM or a SET with its closing parenthesis.
  abbrev pub IsEnum : T → Type 0
  IsEnum e =
      (HasType k_enum (children e) ⊎ HasType k_set (children e)) × HasType rparen (children e)

  -- The enumerations of a column definition from a position on are complete.
  abbrev pub EnumsFrom : ℕ → List T → Type 0
  EnumsFrom pos cs =
      (i : ℕ) (x : T)
      → pos ≤ i
      → get_elem? cs i ≡ some x
      → get_type x ≡ t_create_table_enum
      → IsEnum x

  -- A child that is there is found.
  abbrev Found : ℕ → T → Option ℕ → Type 0
  Found kind tree o =
      (p : ℕ) × (x : T) × (o ≡ some p)
      × (get_elem? (children tree) p ≡ some x)
      × (get_type x ≡ kind)

  Found-present :
      (kind : ℕ) (tree : T) (o : Option ℕ)
      → HasType kind (children tree)
      → IsFirstFrom tree 0 kind o
      → Found kind tree o
  Found-present kind tree none (i, x, at, k) (absent away) = absurd (away i x (omega arith) at k)
  Found-present kind tree (some p) h (present _ x le at same before) = (p, x, refl, at, same)

  look_ahead_index-Runs :
      (kind : ℕ) (tree : T)
      → HasType kind (children tree)
      → Runs (Found kind tree) (look_ahead_index tree 0 kind)
  look_ahead_index-Runs kind tree h =
      let (o, runs, first) = look_ahead_index_lem tree 0 kind in
      (o, runs, Found-present kind tree o h first)

  -- What is found is ENUM or SET, and no parenthesis.
  abbrev Opens : T → Option ℕ → Type 0
  Opens tree o =
      (p : ℕ) × (x : T) × (o ≡ some p)
      × (get_elem? (children tree) p ≡ some x)
      × (get_type x ≢ rparen)

  enum_or_set-Runs :
      (tree : T) (o : Option ℕ)
      → IsEnum tree
      → IsFirstFrom tree 0 k_enum o
      → Runs (Opens tree) (enum_or_set tree o)
  unfolding enum_or_set
  enum_or_set-Runs tree none (inl (i, x, at, k), r) (absent away) =
      absurd (away i x (omega arith) at k)
  enum_or_set-Runs tree none (inr h, r) first =
      let (o, runs, (p, x, e, at, k)) = look_ahead_index-Runs k_set tree h in
      (o, runs, (p, x, e, at, rw k (omega arith)))
  enum_or_set-Runs tree (some p) h (present _ x le at same before) =
      Runs-ok (some p) (p, x, refl, at, rw same (omega arith))

  pub rewrite_enum-Runs :
      (name : String) (tree : T)
      → IsEnum tree
      → Runs (λ t. get_type t ≡ get_type tree) (rewrite_enum name tree)
  unfolding rewrite_enum
  rewrite_enum-Runs name tree enum =
      let (o, runs, first) = look_ahead_index_lem tree 0 k_enum in
      let (o', runs', (p, x, e, at, opens)) = enum_or_set-Runs tree o enum first in
      let x' = set_text x ("text CHECK ( " ++ (name ++ " IN ")) in
      let tree' = set_child tree p x' in
      let closes : HasType rparen (children tree') = closing tree p x x' at opens enum.1 in
      let (o'', runs'', (q, r, e'', at'', k)) = look_ahead_index-Runs rparen tree' closes in
      rw (runs, runs', e, get_child_lem tree p, at, runs'', e'', get_child_lem tree' q, at'')
        (Runs-ok (add_child tree' (dup_tree r))
          (type-add_child tree' (dup_tree r) ∙ type-set_child tree p x'))
    where
      closing :
          (tree : T) (p : ℕ) (x x' : T)
          → get_elem? (children tree) p ≡ some x
          → get_type x ≢ rparen
          → HasType rparen (children tree)
          → HasType rparen (children (set_child tree p x'))
      closing tree p x x' at opens (i, y, at', k) =
          let apart : p ≢ i = λ e. opens (
            ap get_type (some-injective _ _ (sym at ∙ ap (get_elem? (children tree)) e ∙ at'))
            ∙ k) in
          (
            i,
            y,
            ap (λ l. get_elem? l i) (children-set_child tree p x')
                ∙ get_elem?-set_other (children tree) p i x' apart
                ∙ at',
            k,
          )
