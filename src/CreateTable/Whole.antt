-- ===== src/CreateTable/Whole.antt =====
-- All nine passes over a table.
use pgify.Base.{ℕ, ◌≡◌, ◌≢◌, String, List, some, [], ◌∷◌}
use pgify.Antlr.{Antlr, get_type, children}
use pgify.Children.Split.{IsFree}
use pgify.CreateTable.{create_table_worker}
use pgify.CreateTable.Drop.{
  create_table_fulltext_index-Runs, create_table_remove_table_options-Runs,
}
use pgify.CreateTable.Frame.{Every, Every-map, Frame}
use pgify.CreateTable.Name.Laws.{first_name}
use pgify.CreateTable.State.{create_table_worker-Extends}
use pgify.CreateTable.Sound.{SoundIn, EnumsSound}
use pgify.CreateTable.Sound.Passes.{
  create_rewrite_enum-Runs, create_rewrite_stupid_date-Runs, datatypes-Runs, onupdate-Runs,
  auto_inc-Runs, create_table_index-Runs, fkey-Runs,
}
use pgify.Glib.{Glib}
use pgify.Result.{ok}
use pgify.Result.Outcomes.{Runs, Runs-ok, Runs-bind, Ensures-ok}
use pgify.TokenTypes.{t_create_table_index, t_create_table_fkey, t_create_table_options}
use pgify.Walker.{WalkerState}
use pgify.Walker.Extends.{Grows, Extends-Grows, same}

-- The properties of the types that are left behind the passes.
abbrev pub AnyType : ℕ → Type 0
AnyType k = Unit {0}

abbrev pub NoIndex : ℕ → Type 0
NoIndex k = k ≢ t_create_table_index

abbrev pub NoKey : ℕ → Type 0
NoKey k = NoIndex k × (k ≢ t_create_table_fkey)

module _ {T : Type 0} ⦃a : Antlr T⦄ where
  -- A table that the passes can read.
  pub record WellFormed (table : String) (t : T) : Type 0 where
    pub whole : Frame table (SoundIn AnyType) (children t)
    pub enums : EnumsSound (children t)

  -- What is left of a table: its name, and no index, no foreign key and no table options.
  pub record Translated (table : String) (t : T) : Type 0 where
    pub named : first_name (children t) ≡ some table
    pub no_index : IsFree t_create_table_index (children t)
    pub no_fkey : IsFree t_create_table_fkey (children t)
    pub no_options : IsFree t_create_table_options (children t)

  Frame-map :
      {table : String} (P Q : T → Type 0) {cs : List T}
      → ((x : T) → P x → Q x)
      → Frame table P cs
      → Frame table Q cs
  Frame-map P Q {cs} h f = record {
    starts = f.starts;
    named = f.named;
    every = Every-map P Q cs h f.every;
  }

  IsFree-Every : (kind : ℕ) (cs : List T) → Every (λ x. get_type x ≢ kind) cs → IsFree kind cs
  IsFree-Every kind [] e = tt
  IsFree-Every kind (x ∷ cs) e = (e.0, IsFree-Every kind cs e.1)

  abbrev Left : T → Type 0
  Left x = SoundIn NoKey x × (get_type x ≢ t_create_table_options)

  Translated-Left : {table : String} (t : T) → Frame table Left (children t) → Translated table t
  Translated-Left t f = record {
    named = f.named;
    no_index = IsFree-Every _ (children t) (Every-map Left _ (children t) (λ x l. l.0.1.0) f.every);
    no_fkey = IsFree-Every _ (children t) (Every-map Left _ (children t) (λ x l. l.0.1.1) f.every);
    no_options = IsFree-Every _ (children t) (Every-map Left _ (children t) (λ x l. l.1) f.every);
  }

  module _ ⦃g : Glib⦄ where
    nine-Runs :
        (table : String) (ws : WalkerState) (t : T)
        → WellFormed table t
        → Runs (λ r. Frame table Left (children r.1)) (create_table_worker ws t)
    unfolding create_table_worker
    nine-Runs table ws t well =
        Runs-bind _ (create_rewrite_enum-Runs table AnyType t well.whole well.enums) (λ t₁ f₁.
          Runs-bind _ (datatypes-Runs table AnyType t₁ f₁) (λ t₂ f₂.
            Runs-bind _ (onupdate-Runs table AnyType ws t₂ f₂) (λ r₃ f₃.
              Runs-bind _ (create_rewrite_stupid_date-Runs table AnyType r₃.1 f₃) (λ t₄ f₄.
                Runs-bind _ (create_table_index-Runs table AnyType r₃.0 t₄ f₄) (λ r₅ f₅.
                  Runs-bind _
                    (auto_inc-Runs table NoIndex r₅.0 r₅.1
                      (Frame-map _ (SoundIn NoIndex) (λ x p. (p.0.0, p.1)) f₅))
                    (λ r₆ f₆.
                      Runs-bind _ (create_table_fulltext_index-Runs table (SoundIn NoIndex) r₆.1 f₆)
                        (λ t₇ f₇. Runs-bind _ (fkey-Runs table NoIndex r₆.0 t₇ f₇) (λ r₈ f₈.
                          Runs-bind _
                            (create_table_remove_table_options-Runs table (SoundIn NoKey) r₈.1
                              (Frame-map _ (SoundIn NoKey) (λ x p. (p.0.0, (p.0.1, p.1))) f₈))
                            (λ t₉ f₉. Runs-ok (r₈.0, t₉) f₉)))))))))

    -- In a table that starts with none of the children that are removed and has a name, whose columns
    -- each start with a name and have an ENUM or SET and a closing parenthesis in each enumeration,
    -- whose indexes have a name or a column and a word behind USING, if they have USING, and whose
    -- table options have a third word, if they start with AUTO_INCREMENT and =, all nine passes end
    -- without a fault. The table keeps its name, no node of an index, of a foreign key or of table
    -- options is left in it, the options and the number of found rows stay, and statements are only
    -- put off behind those that were put off before.
    pub create_table_worker_lem :
        (table : String) (ws : WalkerState) (t : T)
        → WellFormed table t
        → (ws' : WalkerState) × (t' : T) × (create_table_worker ws t ≡ ok (ws', t'))
          × Translated table t'
          × Grows ws ws'
    create_table_worker_lem table ws t well =
        let ((ws', t'), runs, left) = nine-Runs table ws t well in
        (
          ws',
          t',
          runs,
          Translated-Left t' left,
          Extends-Grows (Ensures-ok (create_table_worker-Extends ws ws t same) runs),
        )
