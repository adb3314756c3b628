-- ===== src/CreateTable/Sound.antt =====
-- The tables that the passes can read.
pub mod Passes
use pgify.Base.{
  ℕ, ◌+◌, ◌≤◌, ◌≡◌, ◌≢◌, refl, sym, ap, ◌∙◌, String, List, Option, some, get_elem?,
  get_elem?-set_other, arith,
}
use pgify.Antlr.{Antlr, get_type, children, set_child, children-set_child, type-set_text}
use pgify.Children.{each_of_type}
use pgify.Children.Passes.{fold_result-ok, for_children-eq}
use pgify.CreateTable.AutoInc.{stated_start, create_table_rewrite_auto_inc}
use pgify.CreateTable.Clear.{each_with_comma-Runs}
use pgify.CreateTable.Columns.{HasName, KeepsName, EnumsFrom, rewrite_date_column-Runs}
use pgify.CreateTable.Columns.Passes.{
  OptionsSound, rewrite_enum_column-Runs, rewrite_onupdate_column-Runs,
  rewrite_auto_inc_column-Runs,
}
use pgify.CreateTable.Datatypes.{append_precision, create_rewrite_datatypes}
use pgify.CreateTable.Dates.{create_rewrite_stupid_date}
use pgify.CreateTable.Drop.{create_rewrite_datatypes-Runs}
use pgify.CreateTable.Enum.{create_rewrite_enum, rewrite_enum_column}
use pgify.CreateTable.Fkey.{create_table_rewrite_fkey, alter_table_add, append_token}
use pgify.CreateTable.Frame.{Every, Every-at, Frame, Frame-set}
use pgify.CreateTable.Index.{create_table_index, create_index, index_type, or_else, add_part}
use pgify.CreateTable.Index.Laws.{parts_of}
use pgify.CreateTable.Loops.{each_of_type-Runs}
use pgify.CreateTable.Name.Laws.{create_table_tablename_lem}
use pgify.CreateTable.OnUpdate.{create_table_rewrite_onupdate}
use pgify.Glib.{Glib}
use pgify.Result.{Result, ok, ◌>>=◌}
use pgify.Result.Outcomes.{Runs, Runs-ok, Runs-bind}
use pgify.TokenTypes.{
  k_double, t_create_table_column_def, t_create_table_index, t_create_table_fkey,
  t_create_table_options,
}
use pgify.Walker.{WalkerState, unquote}

module _ {T : Type 0} ⦃a : Antlr T⦄ where
  -- An index has a word behind USING, if it has USING, and a name or a column.
  pub record IndexSound (x : T) : Type 0 where
    pub kind : Option String
    pub typed : index_type x ≡ ok kind
    pub name : String
    pub names : or_else (parts_of x).name (parts_of x).firstcolumn ≡ some name

  -- A child of a table that the passes can read: a column starts with its name, an index is sound,
  -- and table options that start with AUTO_INCREMENT = have a word behind that.
  pub record Sound (x : T) : Type 0 where
    pub column : get_type x ≡ t_create_table_column_def → HasName (children x)
    pub index : get_type x ≡ t_create_table_index → IndexSound x
    pub options : get_type x ≡ t_create_table_options → Runs (λ o. Unit {0}) (stated_start x)

  -- The enumerations in the columns of a table from a position on are complete.
  abbrev pub ColumnsFrom : ℕ → List T → Type 0
  ColumnsFrom pos cs =
      (i : ℕ) (x : T)
      → pos ≤ i
      → get_elem? cs i ≡ some x
      → get_type x ≡ t_create_table_column_def
      → EnumsFrom 0 (children x)

  abbrev pub EnumsSound : List T → Type 0
  EnumsSound cs = Every (λ x. get_type x ≡ t_create_table_column_def → EnumsFrom 0 (children x)) cs

  pub Sound-column :
      (x : T) → get_type x ≡ t_create_table_column_def → HasName (children x) → Sound x
  Sound-column x k n = record {
    column = λ h. n;
    index = λ h. absurd (omega (arith, sym k ∙ h));
    options = λ h. absurd (omega (arith, sym k ∙ h));
  }

  pub Sound-double : (x : T) → get_type x ≡ k_double → Sound x → Sound (append_precision x)
  Sound-double x k s = record {
    column = λ h. absurd (omega (arith, sym k ∙ sym (type-set_text {T = T} _ _) ∙ h));
    index = λ h. absurd (omega (arith, sym k ∙ sym (type-set_text {T = T} _ _) ∙ h));
    options = λ h. absurd (omega (arith, sym k ∙ sym (type-set_text {T = T} _ _) ∙ h));
  }

  -- A sound child whose type has a property.
  abbrev pub SoundIn : (ℕ → Type 0) → T → Type 0
  SoundIn K x = Sound x × K (get_type x)
