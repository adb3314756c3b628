-- ===== src/CreateTable/State.antt =====
-- What the passes over CREATE TABLE do to the walker's state.
use pgify.Base.{ℕ, zero, suc, ◌+◌, Option, some, String}
use pgify.Antlr.{Antlr, get_child, get_child_count, get_text, to_string, delete_child}
use pgify.Children.{for_children}
use pgify.Children.Keeps.{for_children-Ensures, each_with_comma-Ensures, each_of_type-Ensures}
use pgify.CreateTable.{create_table_worker}
use pgify.CreateTable.AutoInc.{
  auto_inc_start, rewrite_auto_inc_column, create_table_rewrite_auto_inc,
}
use pgify.CreateTable.Datatypes.{create_rewrite_datatypes}
use pgify.CreateTable.Dates.{create_rewrite_stupid_date}
use pgify.CreateTable.Enum.{create_rewrite_enum}
use pgify.CreateTable.Fkey.{append_token, alter_table_add, create_table_rewrite_fkey}
use pgify.CreateTable.Fulltext.{create_table_fulltext_index}
use pgify.CreateTable.Index.{
  add_part, no_parts, or_else, index_type, create_index, create_table_index,
}
use pgify.CreateTable.Name.{create_table_tablename}
use pgify.CreateTable.OnUpdate.{
  create_trigger, onupdate_loop, rewrite_onupdate_column, create_table_rewrite_onupdate,
}
use pgify.CreateTable.Options.{create_table_remove_table_options}
use pgify.Glib.{Glib}
use pgify.LookAhead.{look_ahead_index}
use pgify.Result.{ok, out_of_fuel, deref}
use pgify.Result.Outcomes.{Ensures, returns, faults, Ensures-bind, Ensures-step, Ensures-option}
use pgify.TokenTypes.{
  t_create_table_index, t_create_table_fkey, t_create_table_column_def, t_create_table_onupdate,
  k_auto_increment,
}
use pgify.Walker.{WalkerState, unquote}
use pgify.Walker.Extends.{Extends, put_off}

module _ {T : Type 0} ⦃a : Antlr T⦄ (ws : WalkerState) where
  alter_table_add-Extends :
      (name : Option String) (w : WalkerState) (x : T)
      → Extends ws w
      → Ensures (Extends ws) (alter_table_add name w x)
  alter_table_add-Extends name w x e = Ensures-step (deref name) _ (λ table.
      Ensures-bind _
        (for_children-Ensures (Extends ws) x (λ w t. ok (append_token w t))
          (λ w t e. returns _ (put_off _ e)) _ (put_off _ e))
        (λ w' e'. returns _ (put_off _ e')))

  create_table_rewrite_fkey-Extends :
      (w : WalkerState) (tree : T)
      → Extends ws w
      → Ensures (λ r. Extends ws r.0) (create_table_rewrite_fkey w tree)
  unfolding create_table_rewrite_fkey
  create_table_rewrite_fkey-Extends w tree e = Ensures-step (create_table_tablename tree) _ (λ name.
      each_with_comma-Ensures (Extends ws) t_create_table_fkey (alter_table_add name)
        (alter_table_add-Extends name) w tree e)

  module _ ⦃g : Glib⦄ where
    create_index-Extends :
        (table utable : String) (w : WalkerState) (x : T)
        → Extends ws w
        → Ensures (Extends ws) (create_index table utable w x)
    unfolding create_index
    create_index-Extends table utable w x e = Ensures-step (index_type x) _ (λ kind.
        Ensures-step (for_children x (λ p t. ok (add_part p t)) no_parts) _ (λ parts.
          Ensures-step (unquote (or_else parts.name parts.firstcolumn)) _
            (λ name. returns _ (put_off _ e))))

    create_table_index-Extends :
        (w : WalkerState) (tree : T)
        → Extends ws w
        → Ensures (λ r. Extends ws r.0) (create_table_index w tree)
    unfolding create_table_index
    create_table_index-Extends w tree e = Ensures-step (create_table_tablename tree) _ (λ name.
        Ensures-step (unquote name) _ (λ utable. Ensures-step (deref name) _ (λ table.
          each_with_comma-Ensures (Extends ws) t_create_table_index (create_index table utable)
            (create_index-Extends table utable) w tree e)))

    rewrite_auto_inc_column-Extends :
        (table utable : String) (w : WalkerState) (tree x : T)
        → Extends ws w
        → Ensures (λ r. Extends ws r.0) (rewrite_auto_inc_column table utable w tree x)
    unfolding rewrite_auto_inc_column
    rewrite_auto_inc_column-Extends table utable w tree x e =
        Ensures-step (look_ahead_index x 0 k_auto_increment) _ (λ found.
          Ensures-option found (returns (w, x) e) (λ inc.
            Ensures-step (deref (get_child x 0)) _ (λ i.
              Ensures-step (auto_inc_start tree) _ (λ start.
                Ensures-step (unquote (some (to_string i))) _
                  (λ uid. returns _ (put_off _ (put_off _ e)))))))

    create_table_rewrite_auto_inc-Extends :
        (w : WalkerState) (tree : T)
        → Extends ws w
        → Ensures (λ r. Extends ws r.0) (create_table_rewrite_auto_inc w tree)
    unfolding create_table_rewrite_auto_inc
    create_table_rewrite_auto_inc-Extends w tree e =
        Ensures-step (create_table_tablename tree) _ (λ name.
          Ensures-step (unquote name) _ (λ utable. Ensures-step (deref name) _ (λ table.
            each_of_type-Ensures (Extends ws) t_create_table_column_def
              (rewrite_auto_inc_column table utable) (rewrite_auto_inc_column-Extends table utable)
              w tree e)))

    create_trigger-Extends :
        (table utable : String) (w : WalkerState) (def x : T)
        → Extends ws w
        → Ensures (Extends ws) (create_trigger table utable w def x)
    unfolding create_trigger
    create_trigger-Extends table utable w def x e = Ensures-step (deref (get_child def 0)) _ (λ n.
        Ensures-step (for_children x _ "") _ (λ expr.
          Ensures-step (unquote (some (get_text n))) _
            (λ uname. returns _ (put_off _ (put_off _ e)))))

    onupdate_loop-Extends :
        (table utable : String) (fuel pos : ℕ) (w : WalkerState) (def : T)
        → Extends ws w
        → Ensures (λ r. Extends ws r.0) (onupdate_loop table utable fuel pos w def)
    unfolding onupdate_loop
    onupdate_loop-Extends table utable zero pos w def e = faults out_of_fuel
    onupdate_loop-Extends table utable (suc fuel) pos w def e =
        Ensures-step (look_ahead_index def pos t_create_table_onupdate) _ (λ found.
          Ensures-option found (returns (w, def) e) (λ p.
            Ensures-step (deref (get_child def p)) _ (λ x.
              Ensures-bind _ (create_trigger-Extends table utable w def x e) (λ w' e'.
                onupdate_loop-Extends table utable fuel (p + 1) w' (delete_child def p) e'))))

    create_table_rewrite_onupdate-Extends :
        (w : WalkerState) (tree : T)
        → Extends ws w
        → Ensures (λ r. Extends ws r.0) (create_table_rewrite_onupdate w tree)
    unfolding create_table_rewrite_onupdate rewrite_onupdate_column
    create_table_rewrite_onupdate-Extends w tree e =
        Ensures-step (create_table_tablename tree) _ (λ name.
          Ensures-step (unquote name) _ (λ utable. Ensures-step (deref name) _ (λ table.
            each_of_type-Ensures (Extends ws) t_create_table_column_def
              (λ v b def. rewrite_onupdate_column table utable v def)
              (λ v b def e'.
                onupdate_loop-Extends table utable (suc (get_child_count def)) 0 v def e')
              w tree e)))

    pub create_table_worker-Extends :
        (w : WalkerState) (tree : T)
        → Extends ws w
        → Ensures (λ r. Extends ws r.0) (create_table_worker w tree)
    unfolding create_table_worker
    create_table_worker-Extends w tree e = Ensures-step (create_rewrite_enum tree) _ (λ t₁.
        Ensures-step (create_rewrite_datatypes t₁) _ (λ t₂.
          Ensures-bind _ (create_table_rewrite_onupdate-Extends w t₂ e) (λ r₃ e₃.
            Ensures-step (create_rewrite_stupid_date r₃.1) _ (λ t₄.
              Ensures-bind _ (create_table_index-Extends r₃.0 t₄ e₃) (λ r₅ e₅.
                Ensures-bind _ (create_table_rewrite_auto_inc-Extends r₅.0 r₅.1 e₅) (λ r₆ e₆.
                  Ensures-step (create_table_fulltext_index r₆.1) _ (λ t₇.
                    Ensures-bind _ (create_table_rewrite_fkey-Extends r₆.0 t₇ e₆) (λ r₈ e₈.
                      Ensures-step (create_table_remove_table_options r₈.1) _
                        (λ t₉. returns _ e₈)))))))))
