-- ===== src/CreateTable/Dates/Laws.antt =====
-- A column with a zero date below it loses its first NOT NULL; any other column is left alone.
use mathlib.Core.List.{append_assoc}
use pgify.Base.{
  ℕ, suc, ◌+◌, ◌≡◌, refl, sym, ap, ◌∙◌, true, false, ◌&&◌, ◌⊎◌, inl, inr, List, [], ◌∷◌, ◌++◌,
  Option, none, some, length, length-append, get_elem?, get_elem?-append, remove_at,
  remove_at-append, ltb, ◌==◌, if◌then◌else◌, arith, Bool-cases,
}
use pgify.Antlr.{
  Antlr, get_type, children, get_child, get_child_count, delete_child, get_child_lem,
  get_child_count_lem, children-delete_child, type-delete_child,
}
use pgify.Children.Split.{Rewritten}
use pgify.LookAhead.Down.{Occurs, IsAnswer, nowhere, somewhere, look_ahead_down_lem}
use pgify.Result.{ok}
use pgify.TokenTypes.{stupid_mysql_date, stupid_mysql_timestamp, k_not, k_null}
use pgify.CreateTable.Dates.{delete_not_null, rewrite_date, rewrite_date_column}

module _ {T : Type 0} ⦃a : Antlr T⦄ where
  -- A list of nodes without its first NOT that has a NULL next to it, and without that NULL.
  abbrev pub without_not_null : List T → List T
  without_not_null [] = []
  without_not_null (x ∷ []) = x ∷ []
  without_not_null (x ∷ y ∷ ys) =
      if get_type x == k_not && get_type y == k_null then ys else x ∷ without_not_null (y ∷ ys)

  -- The node behind the current one.
  next_read :
      (def : T) (front : List T) (x y : T) (ys : List T)
      → children def ≡ front ++ x ∷ y ∷ ys
      → get_child def (length front + 1) ≡ some y
  next_read def front x y ys h =
      get_child_lem def (length front + 1)
      ∙ ap (λ l. get_elem? l (length front + 1)) (h ∙ sym (append_assoc front (x ∷ []) (y ∷ ys)))
      ∙ ap (get_elem? ((front ++ x ∷ []) ++ y ∷ ys)) {x = length front + 1}
          {y = length (front ++ x ∷ [])} (omega (arith, length-append {0} front (x ∷ [])))
      ∙ get_elem?-append (front ++ x ∷ []) y ys

  both_deleted :
      (def : T) (front : List T) (x y : T) (ys : List T)
      → children def ≡ front ++ x ∷ y ∷ ys
      → children (delete_child (delete_child def (length front + 1)) (length front)) ≡ front ++ ys
  both_deleted def front x y ys h =
      let one : children (delete_child def (length front + 1)) ≡ front ++ x ∷ ys =
        children-delete_child def (length front + 1)
        ∙ ap (λ l. remove_at l (length front + 1)) (h ∙ sym (append_assoc front (x ∷ []) (y ∷ ys)))
        ∙ ap (remove_at ((front ++ x ∷ []) ++ y ∷ ys)) {x = length front + 1}
            {y = length (front ++ x ∷ [])} (omega (arith, length-append {0} front (x ∷ [])))
        ∙ remove_at-append (front ++ x ∷ []) y ys
        ∙ append_assoc front (x ∷ []) ys in
      children-delete_child _ (length front) ∙ rw one (remove_at-append front x ys)

  -- The loop from child `c` of `n` on, with so many children left, ends with the children `cs`.
  abbrev Deletes : ℕ → ℕ → ℕ → T → List T → Type 0
  Deletes n c left def cs =
      (def' : T) × (delete_not_null n c left def ≡ ok def') × Rewritten def def' cs

  delete_round :
      (n left : ℕ) (def : T) (front : List T) (x y : T) (ys : List T)
      → children def ≡ front ++ x ∷ y ∷ ys
      → ltb (length front + 1) n ≡ true
      → Deletes n (length front + 1) left def (front ++ x ∷ without_not_null (y ∷ ys))
      → Deletes n (length front) (suc left) def (front ++ without_not_null (x ∷ y ∷ ys))
  unfolding delete_not_null
  delete_round n left def front x y ys h room (def', later, r) =
      let here : get_child def (length front) ≡ some x =
        get_child_lem def (length front) ∙ rw h (get_elem?-append front x (y ∷ ys)) in
      let next = next_read def front x y ys h in
      elim (Bool-cases (get_type x == k_not)) [
        | inr e ↦ rw (here, e) (def', later, r)
        | inl e ↦ elim (Bool-cases (get_type y == k_null)) [
          | inr e' ↦ rw (here, e, room, next, e') (def', later, r)
          | inl e' ↦
              rw (here, e, room, next, e')
                (
                  delete_child (delete_child def (length front + 1)) (length front),
                  refl,
                  record {
                    type_kept =
                        type-delete_child (delete_child def (length front + 1)) _
                        ∙ type-delete_child def _;
                    children_are = both_deleted def front x y ys h;
                  },
                )
        ]
      ]

  -- At the last child there is no next one to look at.
  delete_last :
      (n : ℕ) (def : T) (front : List T) (x : T)
      → children def ≡ front ++ x ∷ []
      → n ≡ length front + 1
      → Deletes n (length front) 1 def (front ++ x ∷ [])
  unfolding delete_not_null
  delete_last n def front x h e =
      let here : get_child def (length front) ≡ some x =
        get_child_lem def (length front) ∙ rw h (get_elem?-append front x []) in
      let room : ltb (length front + 1) n ≡ false = ground arith in
      (def, ground (arith, here, room), record { type_kept = refl; children_are = h })

  delete_not_null_lem :
      (ys : List T) (n : ℕ) (def : T) (front : List T)
      → children def ≡ front ++ ys
      → n ≡ length front + length ys
      → Deletes n (length front) (length ys) def (front ++ without_not_null ys)
  delete_not_null_lem [] n def front h e =
      (def, unfold delete_not_null in refl, record { type_kept = refl; children_are = h })
  delete_not_null_lem (x ∷ []) n def front h e = delete_last n def front x h (omega arith)
  delete_not_null_lem (x ∷ y ∷ ys) n def front h e =
      let place : length (front ++ x ∷ []) ≡ length front + 1 =
        omega (arith, length-append {0} front (x ∷ [])) in
      let later : Deletes n (length front + 1) (length (y ∷ ys)) def
          (front ++ x ∷ without_not_null (y ∷ ys)) =
        rw (place, append_assoc) at
          (delete_not_null_lem (y ∷ ys) n def (front ++ x ∷ [])
            (h ∙ sym (append_assoc front (x ∷ []) (y ∷ ys)))
            (omega (arith, length-append {0} front (x ∷ [])))) in
      delete_round n (length (y ∷ ys)) def front x y ys h (ground arith) later

  pub rewrite_date_some :
      (def : T)
      → (def' : T) × (delete_not_null (get_child_count def) 0 (get_child_count def) def ≡ ok def')
        × Rewritten def def' (without_not_null (children def))
  rewrite_date_some def =
      rw get_child_count_lem
        (delete_not_null_lem (children def) (length (children def)) def [] refl (omega arith))

  -- The cases on what the two searches found.
  rewrite_date_lem :
      (def : T) (o o' : Option ℕ)
      → IsAnswer stupid_mysql_date def o
      → IsAnswer stupid_mysql_timestamp def o'
      → (Occurs stupid_mysql_date def ⊎ Occurs stupid_mysql_timestamp def)
      → (def' : T) × (rewrite_date o o' def ≡ ok def')
        × Rewritten def def' (without_not_null (children def))
  unfolding rewrite_date
  rewrite_date_lem def none none (nowhere n) h' (inl d) = absurd (n d)
  rewrite_date_lem def none none h (nowhere n') (inr d) = absurd (n' d)
  rewrite_date_lem def none (some p) h h' d = rewrite_date_some def
  rewrite_date_lem def (some p) none h h' d = rewrite_date_some def
  rewrite_date_lem def (some p) (some q) h h' d = rewrite_date_some def

  rewrite_date-none :
      (def : T) (o o' : Option ℕ)
      → IsAnswer stupid_mysql_date def o
      → IsAnswer stupid_mysql_timestamp def o'
      → ¬ (Occurs stupid_mysql_date def)
      → ¬ (Occurs stupid_mysql_timestamp def)
      → rewrite_date o o' def ≡ ok def
  unfolding rewrite_date
  rewrite_date-none def none none h h' n n' = refl
  rewrite_date-none def none (some p) h (somewhere q d) n n' = absurd (n' d)
  rewrite_date-none def (some p) o' (somewhere q d) h' n n' = absurd (n d)

  -- A column definition with a zero date or a zero timestamp somewhere below it loses its first NOT
  -- that has a NULL next to it, and that NULL. There is no fault.
  pub rewrite_date_column_lem :
      (def : T)
      → (Occurs stupid_mysql_date def ⊎ Occurs stupid_mysql_timestamp def)
      → (def' : T) × (rewrite_date_column def ≡ ok def')
        × Rewritten def def' (without_not_null (children def))
  unfolding rewrite_date_column
  rewrite_date_column_lem def dated =
      let (o, runs, answer) = look_ahead_down_lem def stupid_mysql_date in
      let (o', runs', answer') = look_ahead_down_lem def stupid_mysql_timestamp in
      rw (runs, runs') (rewrite_date_lem def o o' answer answer' dated)

  -- A column definition with neither a zero date nor a zero timestamp anywhere below it is left
  -- alone.
  pub rewrite_date_column-undated :
      (def : T)
      → ¬ (Occurs stupid_mysql_date def)
      → ¬ (Occurs stupid_mysql_timestamp def)
      → rewrite_date_column def ≡ ok def
  unfolding rewrite_date_column
  rewrite_date_column-undated def no_date no_stamp =
      let (o, runs, answer) = look_ahead_down_lem def stupid_mysql_date in
      let (o', runs', answer') = look_ahead_down_lem def stupid_mysql_timestamp in
      rw (runs, runs') (rewrite_date-none def o o' answer answer' no_date no_stamp)
