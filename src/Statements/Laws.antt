-- ===== src/Statements/Laws.antt =====
-- What the handlers of single statements make of the trees that the grammar builds.
use Prim.Native.String.{◌++◌}
use pgify.Base.{
  Bool, ◌&&◌, ◌||◌, String, ℕ, zero, suc, ◌-◌, ◌≤◌, ◌≡◌, refl, sym, ap, ◌∙◌, false, List, [], ◌∷◌,
  some, length, length-remove_at, nil_of_length, arith, Bool-cases, inl, inr, ◌==◌, if◌then◌else◌,
  test_of_eq, test_of_ne, decimal_int,
}
use pgify.Antlr.{
  Antlr, get_type, get_text, children, get_child, get_child_count, set_text, set_child,
  delete_child, get_child_lem, get_child_count_lem, children-set_child, children-delete_child,
  children-set_text, type-set_child, type-delete_child, type-set_text, text-delete_child,
  text-set_text,
}
use pgify.Children.Split.{Rewritten}
use pgify.Glib.{Glib, without_quotes}
use pgify.LookAhead.{look_ahead_down}
use pgify.LookAhead.Down.{look_ahead_down-first}
use pgify.LookAhead.Laws.{look_ahead_index-eq}
use pgify.Result.{ok}
use pgify.TokenTypes.{k_use, id}
use pgify.Walker.{WalkerState, unquote}
use pgify.Statements.{
  use_database_worker, delete_first, delete_tree_children, lock_tables_worker, rewrite_if_function,
  case_expression, rewrite_found_rows, rewrite_server_variables, names_version, version_sql,
}

module _ ⦃g : Glib⦄ where
  -- Without regard to case, the name of a variable is one of the two that mean the version.
  abbrev pub means_version : String → Bool
  means_version name =
      g.ascii_strcasecmp_zero "version" name || g.ascii_strcasecmp_zero "version_comment" name

module _ {T : Type 0} ⦃a : Antlr T⦄ where
  -- USE with a schema's name behind it: the text sets the search path to the schema and `public`,
  -- and the schema's name with a dot is kept in the state.
  pub use_database_worker_lem :
      (ws : WalkerState) (tree u i : T) (rest : List T)
      → children tree ≡ u ∷ i ∷ rest
      → get_type u ≡ k_use
      → get_type i ≡ id
      → (tree' : T) × (use_database_worker ws tree
          ≡ ok (record ws { schema_name = get_text i ++ "." }, tree'))
        × Rewritten tree tree'
            (set_text u "SET search_path TO" ∷ set_text i (get_text i ++ ",public") ∷ rest)
  unfolding use_database_worker
  use_database_worker_lem ws tree u i rest h ku ki =
      let u' = set_text u "SET search_path TO" in
      let t₁ = set_child tree 0 u' in
      let c₁ : children t₁ ≡ u' ∷ i ∷ rest = children-set_child tree 0 u' ∙ rw h refl in
      let ku' : (get_type u' == id) ≡ false = rw (type-set_text, ku) refl in
      (
        set_child t₁ 1 (set_text i (get_text i ++ ",public")),
        rw
            (
              look_ahead_index-eq tree 0 k_use,
              h,
              test_of_eq _ _ ku,
              get_child_lem tree 0,
              h,
              look_ahead_index-eq t₁ 0 id,
              c₁,
              ku',
              test_of_eq _ _ ki,
              get_child_lem t₁ 1,
              c₁,
            )
            refl,
        record {
          type_kept = type-set_child t₁ 1 _ ∙ type-set_child tree 0 u';
          children_are = children-set_child t₁ 1 _ ∙ rw c₁ refl;
        },
      )

  delete_first-empty :
      (left : ℕ) (tree : T) → length (children tree) ≡ left → children (delete_first left tree) ≡ []
  unfolding delete_first
  delete_first-empty zero tree h = nil_of_length (children tree) h
  delete_first-empty (suc left) tree h = delete_first-empty left (delete_child tree 0) (
      omega (
        arith,
        ap length (children-delete_child tree 0),
        length-remove_at (children tree) 0 (omega arith),
      ))

  type-delete_first : (left : ℕ) (tree : T) → get_type (delete_first left tree) ≡ get_type tree
  unfolding delete_first
  type-delete_first zero tree = refl
  type-delete_first (suc left) tree =
      type-delete_first left (delete_child tree 0) ∙ type-delete_child tree 0

  text-delete_first : (left : ℕ) (tree : T) → get_text (delete_first left tree) ≡ get_text tree
  unfolding delete_first
  text-delete_first zero tree = refl
  text-delete_first (suc left) tree =
      text-delete_first left (delete_child tree 0) ∙ text-delete_child tree 0

  -- LOCK TABLES leaves a node of its type with an empty text and no child.
  pub lock_tables_worker_lem :
      (tree : T)
      → (children (lock_tables_worker tree) ≡ [])
        × (get_text (lock_tables_worker tree) ≡ "")
        × (get_type (lock_tables_worker tree) ≡ get_type tree)
  unfolding lock_tables_worker delete_tree_children
  lock_tables_worker_lem tree = (
    delete_first-empty _ (set_text tree "") (sym (get_child_count_lem (set_text tree ""))),
    text-delete_first (get_child_count (set_text tree "")) (set_text tree "")
        ∙ text-set_text tree "",
    type-delete_first (get_child_count (set_text tree "")) (set_text tree "")
        ∙ type-set_text tree "",
  )

  -- In a call of IF with three arguments, the text of the first becomes one expression made of the
  -- three texts, and the other two are deleted.
  pub rewrite_if_function_lem :
      (tree e₁ e₂ e₃ : T) (rest : List T)
      → children tree ≡ e₁ ∷ e₂ ∷ e₃ ∷ rest
      → (tree' : T) × (rewrite_if_function tree ≡ ok tree')
        × Rewritten tree tree'
            (set_text e₁ (case_expression (get_text e₁) (get_text e₂) (get_text e₃)) ∷ rest)
  unfolding rewrite_if_function
  rewrite_if_function_lem tree e₁ e₂ e₃ rest h =
      let e = set_text e₁ (case_expression (get_text e₁) (get_text e₂) (get_text e₃)) in
      let t₁ = set_child tree 0 e in
      (
        delete_child (delete_child t₁ 1) 1,
        rw (get_child_lem tree 0, h, get_child_lem tree 1, h, get_child_lem tree 2, h) refl,
        record {
          type_kept =
              type-delete_child (delete_child t₁ 1) 1
              ∙ type-delete_child t₁ 1
              ∙ type-set_child tree 0 e;
          children_are =
              children-delete_child (delete_child t₁ 1) 1
              ∙ rw (children-delete_child t₁ 1, children-set_child tree 0 e, h) refl;
        },
      )

  -- A call of found_rows() becomes the count that the state holds, under the name that MySQL shows;
  -- its type and its children stay.
  pub rewrite_found_rows_lem :
      (ws : WalkerState) (tree : T)
      → (get_text (rewrite_found_rows ws tree)
          ≡ decimal_int ws.found_rows ++ " AS \"found_rows()\"")
        × (children (rewrite_found_rows ws tree) ≡ children tree)
        × (get_type (rewrite_found_rows ws tree) ≡ get_type tree)
  unfolding rewrite_found_rows
  rewrite_found_rows_lem ws tree =
      (text-set_text tree _, children-set_text tree _, type-set_text tree _)

  module _ ⦃g : Glib⦄ where
    unset_no_child :
        (unset : ℕ) (tree : T)
        → length (children tree) ≤ unset
        → rewrite_server_variables unset tree ≡ ok tree
    unfolding rewrite_server_variables look_ahead_down
    unset_no_child unset tree h =
        let none_left : get_child_count tree - unset ≡ 0 =
          omega (arith, get_child_count_lem tree) in
        rw none_left

    first_is_searched :
        (tree v : T)
        → children tree ≡ v ∷ []
        → get_type v ≡ id
        → rewrite_server_variables 0 tree
          ≡ ok (
              if names_version (without_quotes (get_text v))
              then set_child tree 0 (set_text v version_sql)
              else tree)
    unfolding rewrite_server_variables unquote
    first_is_searched tree v h k =
        let found : get_child tree 0 ≡ some v = get_child_lem tree 0 ∙ rw h refl in
        rw (look_ahead_down-first tree v [] id h k, found, g.regex_replace_quotes) refl

    -- The search for the name of a server variable starts at a variable that was never set, which
    -- is read as an unsigned number. Whatever it holds, if the name is an identifier and the only
    -- child, the call ends without a fault, and the name becomes the query for the version, which is
    -- written out, exactly if the start happens to be 0 and the name without quotes means the
    -- version. It is kept otherwise.
    pub rewrite_server_variables_lem :
        (unset : ℕ) (tree v : T)
        → children tree ≡ v ∷ []
        → get_type v ≡ id
        → (tree' : T) × (rewrite_server_variables unset tree ≡ ok tree')
          × Rewritten tree tree' (
              (if unset == 0 && means_version (without_quotes (get_text v))
                then set_text v
                    " ( select character_value from information_schema.sql_implementation_info where implementation_info_name = 'DBMS VERSION') "
                else v)
              ∷ [])
    rewrite_server_variables_lem (suc n) tree v h k = (
      tree,
      unset_no_child (suc n) tree (omega (arith, ap length h)),
      record { type_kept = refl; children_are = rw (test_of_ne (suc n) 0 (omega arith)) h },
    )
    rewrite_server_variables_lem zero tree v h k =
        let named = names_version (without_quotes (get_text v)) in
        let tree' = set_child tree 0 (set_text v version_sql) in
        (
          if named then tree' else tree,
          first_is_searched tree v h k,
          elim (Bool-cases named) [
            | inl e ↦ rw e (record {
              type_kept = type-set_child tree 0 _;
              children_are = children-set_child tree 0 _ ∙ rw h refl;
            })
            | inr e ↦ rw e (record { type_kept = refl; children_are = h })
          ],
        )
