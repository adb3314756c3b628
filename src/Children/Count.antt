-- ===== src/Children/Count.antt =====
-- How many children a write leaves.
use pgify.Base.{
  ℕ, suc, ◌<◌, ◌≤◌, ◌≡◌, sym, ap, ◌∙◌, some, length, length-set, length-remove_at,
  length-remove_at-le, get_elem?, lt_of_get_elem?, arith,
}
use pgify.Antlr.{
  Antlr, children, get_child_count, set_child, delete_child, get_child_count_lem,
  children-set_child, children-delete_child,
}

module _ {T : Type 0} ⦃a : Antlr T⦄ where
  pub count-set_child :
      (t : T) (p : ℕ) (y : T) → get_child_count (set_child t p y) ≡ get_child_count t
  count-set_child t p y =
      get_child_count_lem (set_child t p y)
      ∙ ap length (children-set_child t p y)
      ∙ length-set (children t) p y
      ∙ sym (get_child_count_lem t)

  pub count-delete_child :
      (t : T) (p : ℕ) {x : T}
      → get_elem? (children t) p ≡ some x
      → suc (get_child_count (delete_child t p)) ≡ get_child_count t
  count-delete_child t p h =
      ap suc (get_child_count_lem (delete_child t p) ∙ ap length (children-delete_child t p))
      ∙ length-remove_at (children t) p (lt_of_get_elem? (children t) p h)
      ∙ sym (get_child_count_lem t)

  pub below_count :
      (t : T) (p : ℕ) {x : T} → get_elem? (children t) p ≡ some x → p < get_child_count t
  below_count t p h = omega (arith, lt_of_get_elem? (children t) p h, get_child_count_lem t)

  pub count-delete_child_le :
      (t : T) (p : ℕ) → get_child_count (delete_child t p) ≤ get_child_count t
  count-delete_child_le t p = omega (
    arith,
    get_child_count_lem t,
    get_child_count_lem (delete_child t p),
    ap length (children-delete_child t p),
    length-remove_at-le (children t) p,
  )
