-- ===== src/CreateTable/Sound/Passes.antt =====
-- The passes over a table that the others can read: each ends without a fault and keeps the table so.
use pgify.Base.{
  ℕ, ◌+◌, ◌≤◌, ◌≡◌, ◌≢◌, refl, sym, ap, ◌∙◌, String, some, get_elem?, get_elem?-set_other, arith,
}
use pgify.Antlr.{Antlr, get_type, children, set_child, children-set_child, type-set_text}
use pgify.Children.{each_of_type}
use pgify.Children.Passes.{fold_result-ok, for_children-eq}
use pgify.CreateTable.AutoInc.{create_table_rewrite_auto_inc}
use pgify.CreateTable.Clear.{each_with_comma-Runs}
use pgify.CreateTable.Columns.{HasName, KeepsName, EnumsFrom, rewrite_date_column-Runs}
use pgify.CreateTable.Columns.Passes.{
  OptionsSound, rewrite_enum_column-Runs, rewrite_onupdate_column-Runs,
  rewrite_auto_inc_column-Runs,
}
use pgify.CreateTable.Datatypes.{create_rewrite_datatypes}
use pgify.CreateTable.Dates.{create_rewrite_stupid_date}
use pgify.CreateTable.Drop.{create_rewrite_datatypes-Runs}
use pgify.CreateTable.Enum.{create_rewrite_enum, rewrite_enum_column}
use pgify.CreateTable.Fkey.{create_table_rewrite_fkey, alter_table_add, append_token}
use pgify.CreateTable.Frame.{Every-at, Frame, Frame-set}
use pgify.CreateTable.Index.{create_table_index, create_index, add_part}
use pgify.CreateTable.Loops.{each_of_type-Runs}
use pgify.CreateTable.Name.Laws.{create_table_tablename_lem}
use pgify.CreateTable.OnUpdate.{create_table_rewrite_onupdate}
use pgify.Glib.{Glib}
use pgify.Result.{Result, ok, ◌>>=◌}
use pgify.Result.Outcomes.{Runs, Runs-ok, Runs-bind}
use pgify.TokenTypes.{t_create_table_column_def, t_create_table_index, t_create_table_fkey}
use pgify.Walker.{WalkerState, unquote}
use pgify.CreateTable.Sound.{
  IndexSound, ColumnsFrom, EnumsSound, Sound-column, Sound-double, SoundIn,
}

module _ {T : Type 0} ⦃a : Antlr T⦄ where
  module _ (table : String) (K : ℕ → Type 0) where
    abbrev pub Whole : T → Type 0
    Whole t = Frame table (SoundIn K) (children t)

    -- A column definition that a pass rewrites and keeps the name of.
    Whole-set :
        (t x y : T) (p : ℕ)
        → get_elem? (children t) p ≡ some x
        → get_type x ≡ t_create_table_column_def
        → KeepsName x y
        → Whole t
        → Whole (set_child t p y)
    Whole-set t x y p at k (kept, n) f = rw children-set_child (
        Frame-set p y at (rw k (omega arith)) kept
          (Sound-column y (kept ∙ k) n, rw kept (Every-at (SoundIn K) (children t) p f.every at).1)
          f)

    column-HasName :
        (t x : T) (p : ℕ)
        → get_elem? (children t) p ≡ some x
        → get_type x ≡ t_create_table_column_def
        → Whole t
        → HasName (children x)
    column-HasName t x p at k f = (Every-at (SoundIn K) (children t) p f.every at).0.column k

    -- A pass that runs on each column definition.
    columns-Runs :
        {S : Type 0} (body : S → T → T → Result (S × T)) (s : S) (t : T)
        → ((s : S) (tree x : T)
            → Whole tree
            → HasName (children x)
            → Runs (λ r. KeepsName x r.1) (body s tree x))
        → Whole t
        → Runs (λ r. Whole r.1) (each_of_type t_create_table_column_def body s t)
    columns-Runs body s t step f =
        let (r, runs, (end, kept)) =
          each_of_type-Runs t_create_table_column_def body (λ pos t. Whole t)
            (λ s tree x pos p le w at k.
              let (r, ends, kept) = step s tree x w (column-HasName tree x p at k w) in
              (r, ends, Whole-set tree x r.1 p at k kept w))
            s t f in
        (r, runs, kept)

    OptionsSound-Whole : (t : T) → Whole t → OptionsSound t
    OptionsSound-Whole t f i x at k = (Every-at (SoundIn K) (children t) i f.every at).0.options k

    pub create_rewrite_stupid_date-Runs :
        (t : T) → Whole t → Runs Whole (create_rewrite_stupid_date t)
    unfolding create_rewrite_stupid_date
    create_rewrite_stupid_date-Runs t f =
        Runs-bind _
          (columns-Runs _ tt t
            (λ u tree x w n.
              Runs-bind _ (rewrite_date_column-Runs x n) (λ d kept. Runs-ok (u, d) kept))
            f)
          (λ r kept. Runs-ok r.1 kept)

    -- What the loop over the columns with an enumeration keeps.
    ColumnsLeft : ℕ → T → Type 0
    ColumnsLeft pos t = Whole t × ColumnsFrom pos (children t)

    columns_step :
        (u : Unit {0}) (t x : T) (pos p : ℕ)
        → pos ≤ p
        → ColumnsLeft pos t
        → get_elem? (children t) p ≡ some x
        → get_type x ≡ t_create_table_column_def
        → Runs {A = Unit {0} × T}
            (λ r. ColumnsLeft (p + 1) (set_child t p r.1))
            (rewrite_enum_column x >>= λ d. ok (u, d))
    unfolding ColumnsLeft
    columns_step u t x pos p le (f, enums) at k =
        let (d, runs, kept) =
          rewrite_enum_column-Runs x (column-HasName t x p at k f) (enums p x le at k) in
        rw runs (
          Runs-ok (u, d)
            (
              Whole-set t x d p at k kept f,
              (λ i y le' at' k'.
                  enums i y (omega arith)
                    (sym (
                        ap (λ l. get_elem? l i) (children-set_child t p d)
                        ∙ get_elem?-set_other (children t) p i d (omega arith))
                      ∙ at')
                    k'),
            ))

    pub create_rewrite_enum-Runs :
        (t : T) → Whole t → EnumsSound (children t) → Runs Whole (create_rewrite_enum t)
    unfolding create_rewrite_enum ColumnsLeft
    create_rewrite_enum-Runs t f enums =
        Runs-bind _
          (each_of_type-Runs t_create_table_column_def _ ColumnsLeft columns_step tt t (
            f,
            (λ i x le at k.
                Every-at (λ x. get_type x ≡ t_create_table_column_def → EnumsFrom 0 (children x))
                  (children t) i enums at k),
          ))
          (λ r (end, kept). Runs-ok r.1 kept.0)

    pub datatypes-Runs : (t : T) → Whole t → Runs Whole (create_rewrite_datatypes t)
    datatypes-Runs =
        create_rewrite_datatypes-Runs table (SoundIn K)
          (λ x k (sound, p). (Sound-double x k sound, rw type-set_text p))

    module _ ⦃g : Glib⦄ where
      pub onupdate-Runs :
          (ws : WalkerState) (t : T)
          → Whole t
          → Runs (λ r. Whole r.1) (create_table_rewrite_onupdate ws t)
      unfolding create_table_rewrite_onupdate unquote
      onupdate-Runs ws t f =
          rw (create_table_tablename_lem t, f.named)
            (columns-Runs _ ws t (λ s tree x w n. rewrite_onupdate_column-Runs table _ s x n) f)

      pub auto_inc-Runs :
          (ws : WalkerState) (t : T)
          → Whole t
          → Runs (λ r. Whole r.1) (create_table_rewrite_auto_inc ws t)
      unfolding create_table_rewrite_auto_inc unquote
      auto_inc-Runs ws t f =
          rw (create_table_tablename_lem t, f.named)
            (columns-Runs _ ws t
              (λ s tree x w n.
                rewrite_auto_inc_column-Runs table _ s tree x (OptionsSound-Whole tree w) n)
              f)

      create_index-Runs :
          (utable : String) (ws : WalkerState) (x : T)
          → IndexSound x
          → Runs (λ w. Unit {0}) (create_index table utable ws x)
      unfolding create_index unquote
      create_index-Runs utable ws x i =
          rw
            (
              i.typed,
              for_children-eq x _ _,
              fold_result-ok _ add_part (λ s y. refl) _ (children x),
              i.names,
            )
            (Runs-ok _ tt)

      pub create_table_index-Runs :
          (ws : WalkerState) (t : T)
          → Whole t
          → Runs
              (λ r.
                Frame table (λ x. SoundIn K x × (get_type x ≢ t_create_table_index)) (children r.1))
              (create_table_index ws t)
      unfolding create_table_index unquote
      create_table_index-Runs ws t f =
          rw (create_table_tablename_lem t, f.named)
            (each_with_comma-Runs t_create_table_index _ table (SoundIn K) refl (omega arith)
              (λ s x (sound, p) k. create_index-Runs _ s x (sound.index k)) ws t f)

    alter_table_add-Runs :
        (ws : WalkerState) (x : T) → Runs (λ w. Unit {0}) (alter_table_add (some table) ws x)
    alter_table_add-Runs ws x =
        rw (for_children-eq x _ _, fold_result-ok _ append_token (λ s y. refl) _ (children x))
          (Runs-ok _ tt)

    pub fkey-Runs :
        (ws : WalkerState) (t : T)
        → Whole t
        → Runs
            (λ r.
              Frame table (λ x. SoundIn K x × (get_type x ≢ t_create_table_fkey)) (children r.1))
            (create_table_rewrite_fkey ws t)
    unfolding create_table_rewrite_fkey
    fkey-Runs ws t f =
        rw (create_table_tablename_lem t, f.named)
          (each_with_comma-Runs t_create_table_fkey _ table (SoundIn K) refl (omega arith)
            (λ s x p k. alter_table_add-Runs s x) ws t f)
