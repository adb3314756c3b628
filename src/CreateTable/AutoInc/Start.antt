-- ===== src/CreateTable/AutoInc/Start.antt =====
-- The start value that the table options of a table state for its sequences.
use pgify.Base.{
  ℕ, zero, suc, ◌+◌, ◌<◌, ◌≡◌, ◌≢◌, refl, ap, String, List, [], ◌∷◌, none, some, true, leb, length,
  drop, arith, inl, inr, Bool-cases, test_of_eq, test_of_ne,
}
use pgify.Antlr.{
  Antlr, get_type, get_text, get_child_count, children, get_child_lem, get_child_count_lem,
}
use pgify.CreateTable.AutoInc.{stated_start, auto_inc_start_loop, auto_inc_start}
use pgify.LookAhead.Laws.{drop-cons, look_ahead_index-eq}
use pgify.Result.{ok}
use pgify.TokenTypes.{t_create_table_options, k_auto_increment, eq, number}

module _ {T : Type 0} ⦃a : Antlr T⦄ where
  -- The start among the children behind the first: the number of the first table options that read
  -- AUTO_INCREMENT = number, or 1 if there are none. All table options in front start with another
  -- word.
  pub data Starts : List T → String → Type 0 where
    unstated : Starts [] "1"
    stated :
        {xs : List T} (o k e n : T) (rest : List T)
        → get_type o ≡ t_create_table_options
        → children o ≡ k ∷ e ∷ n ∷ rest
        → get_type k ≡ k_auto_increment
        → get_type e ≡ eq
        → get_type n ≡ number
        → Starts (o ∷ xs) (get_text n)
    other :
        {xs : List T} {start : String} (o k : T) (rest : List T)
        → get_type o ≡ t_create_table_options
        → children o ≡ k ∷ rest
        → get_type k ≢ k_auto_increment
        → Starts xs start
        → Starts (o ∷ xs) start
    passed :
        {xs : List T} {start : String} (x : T)
        → get_type x ≢ t_create_table_options
        → Starts xs start
        → Starts (x ∷ xs) start

  stated_start-eq :
      (o k e n : T) (rest : List T)
      → children o ≡ k ∷ e ∷ n ∷ rest
      → get_type k ≡ k_auto_increment
      → get_type e ≡ eq
      → get_type n ≡ number
      → stated_start o ≡ ok (some (get_text n))
  unfolding stated_start
  stated_start-eq o k e n rest h kk ke kn =
      let enough : leb 2 (get_child_count o) ≡ true =
        ground (arith, get_child_count_lem o, ap length h) in
      rw (enough, get_child_lem o 0, h, kk, get_child_lem o 1, h, ke, get_child_lem o 2, h, kn) refl

  stated_start-other :
      (o k : T) (rest : List T)
      → children o ≡ k ∷ rest
      → get_type k ≢ k_auto_increment
      → stated_start o ≡ ok none
  unfolding stated_start
  stated_start-other o k rest h nk = elim (Bool-cases (leb 2 (get_child_count o))) [
    | inl enough ↦ rw (enough, get_child_lem o 0, h, test_of_ne _ _ nk) refl
    | inr few ↦ rw few refl
  ]

  auto_inc_start_loop-Starts :
      {xs : List T} {start : String}
      → Starts xs start
      → (fuel : ℕ) (tree : T) (p : ℕ) → drop (suc p) (children tree) ≡ xs
      → length xs < fuel
      → auto_inc_start_loop fuel tree (suc p) ≡ ok start
  unfolding auto_inc_start_loop
  auto_inc_start_loop-Starts s zero tree p d enough = absurd (omega (arith, enough))
  auto_inc_start_loop-Starts unstated (suc fuel) tree p d enough =
      rw (look_ahead_index-eq tree (suc p) t_create_table_options, d) refl
  auto_inc_start_loop-Starts (stated o k e n rest ko ho kk ke kn) (suc fuel) tree p d enough =
      let (here, next) = drop-cons (children tree) (suc p) d in
      rw
        (
          look_ahead_index-eq tree (suc p) t_create_table_options,
          d,
          test_of_eq _ _ ko,
          get_child_lem tree (suc p),
          here,
          stated_start-eq o k e n rest ho kk ke kn,
        )
        refl
  auto_inc_start_loop-Starts (other {xs = xs} o k rest ko ho nk later) (suc fuel) tree p d enough =
      let (here, next) = drop-cons (children tree) (suc p) d in
      let place : suc p + 1 ≡ suc (suc p) = omega arith in
      rw
        (
          look_ahead_index-eq tree (suc p) t_create_table_options,
          d,
          test_of_eq _ _ ko,
          get_child_lem tree (suc p),
          here,
          stated_start-other o k rest ho nk,
          place,
        )
        (auto_inc_start_loop-Starts {xs = xs} later fuel tree (suc p) next (omega (arith, enough)))
  auto_inc_start_loop-Starts (passed {xs = xs} x nx later) (suc fuel) tree p d enough =
      let (here, next) = drop-cons (children tree) (suc p) d in
      rw (look_ahead_index-eq tree (suc p) t_create_table_options, d, test_of_ne _ _ nx)
        (rw (look_ahead_index-eq tree (suc (suc p)) t_create_table_options, next) at
          (auto_inc_start_loop-Starts {xs = xs} later (suc fuel) tree (suc p) next
            (omega (arith, enough))))

  -- Behind a first child that is no table options, the search ends at the start they state.
  pub auto_inc_start_lem :
      (tree x : T) (xs : List T) (start : String)
      → children tree ≡ x ∷ xs
      → get_type x ≢ t_create_table_options
      → Starts xs start
      → auto_inc_start tree ≡ ok start
  unfolding auto_inc_start auto_inc_start_loop
  auto_inc_start_lem tree x xs start h nx s =
      let count : get_child_count tree ≡ suc (length xs) =
        omega (arith, get_child_count_lem tree, ap length h) in
      rw (look_ahead_index-eq tree 0 t_create_table_options, h, test_of_ne _ _ nx)
        (rw (look_ahead_index-eq tree 1 t_create_table_options, h) at
          (auto_inc_start_loop-Starts s (suc (get_child_count tree)) tree 0 (rw h refl)
            (omega (arith, count))))
