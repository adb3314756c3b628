-- ===== src/CreateTable/Columns/Passes.antt =====
-- ENUM, ON UPDATE and AUTO_INCREMENT in a column definition: the passes end and keep its name.
use pgify.Base.{
  ℕ, zero, suc, ◌+◌, ◌<◌, ◌≤◌, ◌≡◌, refl, sym, ap, ◌∙◌, String, Option, none, some, get_elem?,
  get_elem?-set_other, arith,
}
use pgify.Antlr.{
  Antlr, get_type, get_text, children, get_child, get_child_count, set_child, delete_child,
  get_child_lem, children-set_child, children-delete_child, type-set_child, type-delete_child,
}
use pgify.CreateTable.AutoInc.{
  stated_start, auto_inc_start_loop, auto_inc_start, rewrite_auto_inc_column,
}
use pgify.CreateTable.Columns.{
  HasName, HasName-set, HasName-remove_at, KeepsName, EnumsFrom, rewrite_enum-Runs,
}
use pgify.CreateTable.Enum.{rewrite_enum, rewrite_enum_column}
use pgify.Children.Count.{count-delete_child, below_count}
use pgify.CreateTable.Loops.{each_of_type-Runs}
use pgify.CreateTable.OnUpdate.{onupdate_loop, rewrite_onupdate_column}
use pgify.CreateTable.OnUpdate.Laws.{create_trigger-eq, triggered}
use pgify.Glib.{Glib}
use pgify.LookAhead.{look_ahead_index}
use pgify.LookAhead.Laws.{IsFirstFrom, present, look_ahead_index_lem}
use pgify.Result.{ok, deref, ◌>>=◌}
use pgify.Result.Outcomes.{Runs, Runs-ok, Runs-bind}
use pgify.TokenTypes.{
  k_auto_increment, t_create_table_options, t_create_table_enum, t_create_table_onupdate,
}
use pgify.Walker.{WalkerState, unquote}

module _ {T : Type 0} ⦃a : Antlr T⦄ where
  -- What the loop over the enumerations of a column definition keeps.
  EnumsLeft : T → ℕ → T → Type 0
  EnumsLeft d₀ pos d = KeepsName d₀ d × EnumsFrom pos (children d)

  enum_step :
      (d₀ : T) (u : Unit {0}) (d x : T) (pos p : ℕ)
      → pos ≤ p
      → EnumsLeft d₀ pos d
      → get_elem? (children d) p ≡ some x
      → get_type x ≡ t_create_table_enum
      → Runs {A = Unit {0} × T}
          (λ r. EnumsLeft d₀ (p + 1) (set_child d p r.1))
          (do ntree ← deref (get_child d 0); tree' ← rewrite_enum (get_text ntree) x; ok (u, tree'))
  unfolding EnumsLeft
  enum_step d₀ u d x pos p le ((same, (n, at, k)), enums) there kind =
      let (e, runs, kept) = rewrite_enum-Runs (get_text n) x (enums p x le there kind) in
      rw (get_child_lem d 0, at, runs)
        (Runs-ok (u, e)
          (
            (
              type-set_child d p e ∙ same,
              rw children-set_child (HasName-set (children d) p e there kept (n, at, k)),
            ),
            (λ i y le' at' k'.
                enums i y (omega arith)
                  (sym (
                      ap (λ l. get_elem? l i) (children-set_child d p e)
                      ∙ get_elem?-set_other (children d) p i e (omega arith))
                    ∙ at')
                  k'),
          ))

  -- A column definition with a name and complete enumerations keeps its name.
  pub rewrite_enum_column-Runs :
      (d : T)
      → HasName (children d)
      → EnumsFrom 0 (children d)
      → Runs (KeepsName d) (rewrite_enum_column d)
  unfolding rewrite_enum_column EnumsLeft
  rewrite_enum_column-Runs d n enums =
      Runs-bind _
        (each_of_type-Runs t_create_table_enum _ (EnumsLeft d) (enum_step d) tt d
          ((refl, n), enums))
        (λ r (end, kept). Runs-ok r.1 kept.0)

  -- The start value is found or is 1, if the table options that state one are complete.
  abbrev pub OptionsSound : T → Type 0
  OptionsSound tree =
      (i : ℕ) (x : T)
      → get_elem? (children tree) i ≡ some x
      → get_type x ≡ t_create_table_options
      → Runs (λ o. Unit {0}) (stated_start x)

  auto_inc_start_round :
      (fuel : ℕ) (tree : T) (pos : ℕ) (o : Option ℕ)
      → IsFirstFrom tree pos t_create_table_options o
      → OptionsSound tree
      → ((p : ℕ)
          → pos ≤ p
          → p < get_child_count tree
          → Runs (λ s. Unit {0}) (auto_inc_start_loop fuel tree (p + 1)))
      → look_ahead_index tree pos t_create_table_options ≡ ok o
      → Runs (λ s. Unit {0}) (auto_inc_start_loop (suc fuel) tree pos)
  unfolding auto_inc_start_loop
  auto_inc_start_round fuel tree pos none first sound later runs = rw runs (Runs-ok "1" tt)
  auto_inc_start_round fuel tree pos (some zero) first sound later runs = rw runs (Runs-ok "1" tt)
  auto_inc_start_round fuel tree pos (some (suc p)) (present _ x le at same before) sound later
        runs =
      rw (runs, get_child_lem tree (suc p), at)
        (Runs-bind _ (sound (suc p) x at same) (λ o _. either o))
    where
      either :
          (o : Option String)
          → Runs
              (λ s. Unit {0})
              (elim o [ some value ↦ ok value | none ↦ auto_inc_start_loop fuel tree (suc p + 1) ])
      either none = later (suc p) le (below_count tree (suc p) at)
      either (some value) = Runs-ok value tt

  auto_inc_start_loop-Runs :
      (fuel : ℕ) (tree : T) (pos : ℕ)
      → pos ≤ get_child_count tree
      → get_child_count tree < fuel + pos
      → OptionsSound tree
      → Runs (λ s. Unit {0}) (auto_inc_start_loop fuel tree pos)
  auto_inc_start_loop-Runs zero tree pos le enough sound = absurd (omega arith)
  auto_inc_start_loop-Runs (suc fuel) tree pos le enough sound =
      let (o, runs, first) = look_ahead_index_lem tree pos t_create_table_options in
      auto_inc_start_round fuel tree pos o first sound
        (λ p from to. auto_inc_start_loop-Runs fuel tree (p + 1) (omega arith) (omega arith) sound)
        runs

  pub auto_inc_start-Runs :
      (tree : T) → OptionsSound tree → Runs (λ s. Unit {0}) (auto_inc_start tree)
  unfolding auto_inc_start
  auto_inc_start-Runs tree sound =
      auto_inc_start_loop-Runs (suc (get_child_count tree)) tree 0 (omega arith) (omega arith) sound

  module _ ⦃g : Glib⦄ (table utable : String) where
    abbrev Renames : T → WalkerState × T → Type 0
    Renames d r = KeepsName d r.1

    onupdate_round :
        (fuel : ℕ) (ws : WalkerState) (d : T) (pos : ℕ) (o : Option ℕ)
        → IsFirstFrom d pos t_create_table_onupdate o
        → HasName (children d)
        → ((w : WalkerState) (d' : T) (p : ℕ)
            → get_child_count d' < get_child_count d
            → HasName (children d')
            → Runs (Renames d') (onupdate_loop table utable fuel p w d'))
        → look_ahead_index d pos t_create_table_onupdate ≡ ok o
        → Runs (Renames d) (onupdate_loop table utable (suc fuel) pos ws d)
    unfolding onupdate_loop
    onupdate_round fuel ws d pos none first n later runs = rw runs (Runs-ok (ws, d) (refl, n))
    onupdate_round fuel ws d pos (some p) (present _ x le there same before) (n, at, k) later runs =
        let d' = delete_child d p in
        let n' : HasName (children d') =
          rw children-delete_child
            (HasName-remove_at (children d) p there (rw same (omega arith)) (n, at, k)) in
        let (r, ends, kept) =
          later (triggered table utable ws (get_text n) x) d' (p + 1)
            (omega (arith, count-delete_child d p there)) n' in
        rw
          (
            runs,
            get_child_lem d p,
            there,
            create_trigger-eq table utable ws d n x (get_child_lem d 0 ∙ at),
          )
          (r, ends, (kept.0 ∙ type-delete_child d p, kept.1))

    onupdate_loop-Runs :
        (fuel : ℕ) (ws : WalkerState) (d : T) (pos : ℕ)
        → get_child_count d < fuel
        → HasName (children d)
        → Runs (Renames d) (onupdate_loop table utable fuel pos ws d)
    onupdate_loop-Runs zero ws d pos enough n = absurd (omega arith)
    onupdate_loop-Runs (suc fuel) ws d pos enough n =
        let (o, runs, first) = look_ahead_index_lem d pos t_create_table_onupdate in
        onupdate_round fuel ws d pos o first n
          (λ w d' p fewer n'. onupdate_loop-Runs fuel w d' p (omega arith) n') runs

    pub rewrite_onupdate_column-Runs :
        (ws : WalkerState) (d : T)
        → HasName (children d)
        → Runs (Renames d) (rewrite_onupdate_column table utable ws d)
    unfolding rewrite_onupdate_column
    rewrite_onupdate_column-Runs ws d n =
        onupdate_loop-Runs (suc (get_child_count d)) ws d 0 (omega arith) n

    rewrite_auto_inc_found :
        (ws : WalkerState) (tree d : T) (o : Option ℕ)
        → IsFirstFrom d 0 k_auto_increment o
        → OptionsSound tree
        → HasName (children d)
        → look_ahead_index d 0 k_auto_increment ≡ ok o
        → Runs (Renames d) (rewrite_auto_inc_column table utable ws tree d)
    unfolding rewrite_auto_inc_column unquote
    rewrite_auto_inc_found ws tree d none first sound n runs = rw runs (Runs-ok (ws, d) (refl, n))
    rewrite_auto_inc_found ws tree d (some p) (present _ x le there same before) sound (n, at, k)
          runs =
        let (start, starts, _) = auto_inc_start-Runs tree sound in
        rw (runs, get_child_lem d 0, at, starts)
          (Runs-ok (_, delete_child d p)
            (
              type-delete_child d p,
              rw children-delete_child
                  (HasName-remove_at (children d) p there (rw same (omega arith)) (n, at, k)),
            ))

    pub rewrite_auto_inc_column-Runs :
        (ws : WalkerState) (tree d : T)
        → OptionsSound tree
        → HasName (children d)
        → Runs (Renames d) (rewrite_auto_inc_column table utable ws tree d)
    rewrite_auto_inc_column-Runs ws tree d sound n =
        let (o, runs, first) = look_ahead_index_lem d 0 k_auto_increment in
        rewrite_auto_inc_found ws tree d o first sound n runs
