-- ===== src/CreateTable/Drop.antt =====
-- The removal of FULLTEXT indexes and table options, and the second word of DOUBLE, keep the frame
-- of a table.
use pgify.Base.{
  ℕ, zero, suc, ◌<◌, ◌≤◌, ◌≡◌, ◌≢◌, refl, ap, ◌∙◌, String, true, List, Option, none, some, inl, inr,
  get_elem?-of_lt, ◌==◌, if◌then◌else◌, arith, Bool-cases, eq_of_test, ne_of_test, test_of_ne, [],
  ◌∷◌,
}
use pgify.Antlr.{
  Antlr, get_type, to_string, children, get_child_count, delete_child, get_child_lem,
  get_child_count_lem, children-delete_child, type-set_text,
}
use pgify.CreateTable.Datatypes.{append_precision, create_rewrite_datatypes}
use pgify.CreateTable.Frame.{is_removed, Every, StartsKept, Frame, behind_first, Frame-remove_at}
use pgify.CreateTable.Fulltext.{remove_comma_before, fulltext_loop, create_table_fulltext_index}
use pgify.CreateTable.Datatypes.Laws.{with_precision, create_rewrite_datatypes_lem}
use pgify.CreateTable.Options.Laws.{create_table_remove_table_options_lem}
use pgify.CreateTable.Name.Laws.{first_name}
use pgify.Children.Split.{without_type}
use pgify.Children.Count.{count-delete_child, below_count}
use pgify.CreateTable.Options.{create_table_remove_table_options}
use pgify.LookAhead.{look_ahead_index}
use pgify.LookAhead.Laws.{IsFirstFrom, present, look_ahead_index_lem}
use pgify.Result.{ok}
use pgify.Result.Outcomes.{Runs, Runs-ok, Runs-bind}
use pgify.TokenTypes.{
  id, comma, t_create_table_options, t_create_table_fulltext_index, k_double, k_precision,
}

module _ {T : Type 0} ⦃a : Antlr T⦄ (table : String) (P : T → Type 0) where
  abbrev KeepsFrame : T → Type 0
  KeepsFrame t = Frame table P (children t)

  -- The child in front of a deleted FULLTEXT index goes too if it is a comma.
  remove_comma_before-Runs :
      (tree : T) (p : ℕ)
      → p ≤ get_child_count tree
      → KeepsFrame tree
      → Runs
          (λ t. (get_child_count t ≤ get_child_count tree) × KeepsFrame t)
          (remove_comma_before tree p)
  unfolding remove_comma_before
  remove_comma_before-Runs tree zero le f = Runs-ok tree (omega arith, f)
  remove_comma_before-Runs tree (suc zero) le f = Runs-ok tree (omega arith, f)
  remove_comma_before-Runs tree (suc (suc p)) le f =
      let (y, at) =
        get_elem?-of_lt (children tree) (suc p) (omega (arith, get_child_count_lem tree)) in
      elim (Bool-cases (get_type y == comma)) [
        | inr e ↦ rw (get_child_lem tree (suc p), at, e) (Runs-ok tree (omega arith, f))
        | inl e ↦
            rw (get_child_lem tree (suc p), at, e)
              (Runs-ok (delete_child tree (suc p)) (
                omega (arith, count-delete_child tree (suc p) at),
                rw children-delete_child
                    (Frame-remove_at p at (rw (eq_of_test _ _ e) (omega arith)) f),
              ))
      ]

  fulltext_round :
      (fuel : ℕ) (tree : T) (pos : ℕ) (o : Option ℕ)
      → IsFirstFrom tree pos t_create_table_fulltext_index o
      → KeepsFrame tree
      → ((t : T) (p : ℕ)
          → get_child_count t < get_child_count tree
          → KeepsFrame t
          → Runs KeepsFrame (fulltext_loop fuel t p))
      → look_ahead_index tree pos t_create_table_fulltext_index ≡ ok o
      → Runs KeepsFrame (fulltext_loop (suc fuel) tree pos)
  unfolding fulltext_loop
  fulltext_round fuel tree pos none first f later runs = rw runs (Runs-ok tree f)
  fulltext_round fuel tree pos (some zero) (present _ x le there same before) f later runs =
      absurd (omega (arith, (behind_first (children tree) 0 there (ap is_removed same) f.starts).1))
  fulltext_round fuel tree pos (some (suc q)) (present _ x le there same before) f later runs =
      rw runs (
        Runs-bind _
          (remove_comma_before-Runs (delete_child tree (suc q)) (suc q)
            (omega (arith, count-delete_child tree (suc q) there, below_count tree (suc q) there))
            (rw children-delete_child (Frame-remove_at q there (rw same (omega arith)) f)))
          (λ t (fewer, kept).
            later t (suc q) (omega (arith, count-delete_child tree (suc q) there)) kept))

  fulltext_loop-Runs :
      (fuel : ℕ) (tree : T) (pos : ℕ)
      → get_child_count tree < fuel
      → KeepsFrame tree
      → Runs KeepsFrame (fulltext_loop fuel tree pos)
  fulltext_loop-Runs zero tree pos enough f = absurd (omega arith)
  fulltext_loop-Runs (suc fuel) tree pos enough f =
      let (o, runs, first) = look_ahead_index_lem tree pos t_create_table_fulltext_index in
      fulltext_round fuel tree pos o first f
        (λ t p fewer kept. fulltext_loop-Runs fuel t p (omega arith) kept) runs

  pub create_table_fulltext_index-Runs :
      (tree : T) → KeepsFrame tree → Runs KeepsFrame (create_table_fulltext_index tree)
  unfolding create_table_fulltext_index
  create_table_fulltext_index-Runs tree f =
      fulltext_loop-Runs (suc (get_child_count tree)) tree 0 (omega arith) f

  -- Filtering a list of children by a type that is removed.
  StartsKept-without_type :
      (kind : ℕ) (cs : List T)
      → is_removed kind ≡ true
      → StartsKept cs
      → StartsKept (without_type kind cs)
  StartsKept-without_type kind [] removed s = tt
  StartsKept-without_type kind (x ∷ cs) removed s =
      let stays : get_type x ≢ kind = λ e. cc (ap is_removed e, removed, s) in
      rw (test_of_ne _ _ stays) s

  first_name-without_type :
      (kind : ℕ) (cs : List T) → kind ≢ id → first_name (without_type kind cs) ≡ first_name cs
  first_name-without_type kind [] other = refl
  first_name-without_type kind (x ∷ cs) other = elim (Bool-cases (get_type x == kind)) [
    | inl e ↦
        let k : get_type x ≢ id = rw (eq_of_test _ _ e) other in
        rw (e, test_of_ne _ _ k) (first_name-without_type kind cs other)
    | inr e ↦ rw (e, first_name-without_type kind cs other) refl
  ]

  Every-without_type :
      (kind : ℕ) (cs : List T)
      → Every P cs
      → Every (λ x. P x × (get_type x ≢ kind)) (without_type kind cs)
  Every-without_type kind [] every = tt
  Every-without_type kind (x ∷ cs) every = elim (Bool-cases (get_type x == kind)) [
    | inl e ↦ rw e (Every-without_type kind cs every.1)
    | inr e ↦ rw e ((every.0, ne_of_test _ _ e), Every-without_type kind cs every.1)
  ]

  pub create_table_remove_table_options-Runs :
      (tree : T)
      → KeepsFrame tree
      → Runs
          (λ t. Frame table (λ x. P x × (get_type x ≢ t_create_table_options)) (children t))
          (create_table_remove_table_options tree)
  create_table_remove_table_options-Runs tree f =
      let (t, runs, r) = create_table_remove_table_options_lem tree in
      (
        t,
        runs,
        rw r.children_are (record {
          starts = StartsKept-without_type t_create_table_options (children tree) refl f.starts;
          named =
              first_name-without_type t_create_table_options (children tree) (omega arith)
              ∙ f.named;
          every = Every-without_type t_create_table_options (children tree) f.every;
        }),
      )

  module _ (double : (x : T) → get_type x ≡ k_double → P x → P (append_precision x)) where
    -- A child behind the pass over DOUBLE: it is as before, or a DOUBLE with its second word.
    data Spelled (x : T) : T → Type 0 where
      as_before : Spelled x x
      second_word : get_type x ≡ k_double → Spelled x (append_precision x)

    abbrev spell : T → T → T
    spell x y =
        if get_type x == k_double
        then (if get_type y == k_precision then x else append_precision x)
        else x

    spell-Spelled : (x y : T) → Spelled x (spell x y)
    spell-Spelled x y = elim (Bool-cases (get_type x == k_double)) [
      | inr e ↦ rw e as_before
      | inl e ↦ elim (Bool-cases (get_type y == k_precision)) [
        | inl e' ↦ rw (e, e') as_before
        | inr e' ↦ rw (e, e') (second_word (eq_of_test _ _ e))
      ]
    ]

    Spelled-type : {x z : T} → Spelled x z → get_type z ≡ get_type x
    Spelled-type as_before = refl
    Spelled-type (second_word k) = type-set_text {T = T} _ _

    Spelled-P : {x z : T} → Spelled x z → P x → P z
    Spelled-P as_before p = p
    Spelled-P (second_word k) p = double _ k p

    Spelled-name :
        {x z : T} → Spelled x z → (cs : List T) → first_name (z ∷ cs) ≡ first_name (x ∷ cs)
    Spelled-name as_before cs = refl
    Spelled-name {x} (second_word k) cs =
        let other : get_type x ≢ id = rw k (omega arith) in
        rw (type-set_text, test_of_ne _ _ other) refl

    first_name-with_precision : (cs : List T) → first_name (with_precision cs) ≡ first_name cs
    first_name-with_precision [] = refl
    first_name-with_precision (x ∷ []) = refl
    first_name-with_precision (x ∷ y ∷ ys) =
        Spelled-name (spell-Spelled x y) (with_precision (y ∷ ys))
        ∙ ap (λ n. if get_type x == id then some (to_string x) else n)
            (first_name-with_precision (y ∷ ys))

    Every-with_precision : (cs : List T) → Every P cs → Every P (with_precision cs)
    Every-with_precision [] e = tt
    Every-with_precision (x ∷ []) e = e
    Every-with_precision (x ∷ y ∷ ys) e =
        (Spelled-P (spell-Spelled x y) e.0, Every-with_precision (y ∷ ys) e.1)

    StartsKept-with_precision : (cs : List T) → StartsKept cs → StartsKept (with_precision cs)
    StartsKept-with_precision [] s = tt
    StartsKept-with_precision (x ∷ []) s = s
    StartsKept-with_precision (x ∷ y ∷ ys) s = ap is_removed (Spelled-type (spell-Spelled x y)) ∙ s

    pub create_rewrite_datatypes-Runs :
        (tree : T) → KeepsFrame tree → Runs KeepsFrame (create_rewrite_datatypes tree)
    create_rewrite_datatypes-Runs tree f =
        let (t, runs, r) = create_rewrite_datatypes_lem tree in
        (
          t,
          runs,
          rw r.children_are (record {
            starts = StartsKept-with_precision (children tree) f.starts;
            named = first_name-with_precision (children tree) ∙ f.named;
            every = Every-with_precision (children tree) f.every;
          }),
        )
