-- ===== src/CreateTable/Datatypes.antt =====
-- `create_rewrite_datatypes` of pgify.c.
pub mod Laws
use Prim.Native.String.{◌++◌}
use pgify.Base.{ℕ, zero, suc, ◌+◌, ◌&&◌, ltb, ◌==◌, if◌then◌else◌}
use pgify.Antlr.{Antlr, get_type, get_text, get_child, get_child_count, set_child, set_text}
use pgify.Result.{Result, ok, deref, ◌>>=◌}
use pgify.TokenTypes.{k_double, k_precision}

module _ {T : Type 0} ⦃a : Antlr T⦄ where
  abbrev pub append_precision : T → T
  append_precision child = set_text child (get_text child ++ " PRECISION ")

  -- One round at child `c`, of `n` children.
  unfoldable pub rewrite_double : ℕ → ℕ → T → Result T
  rewrite_double n c tree = do
    child ← deref (get_child tree c)
    if get_type child == k_double && ltb (c + 1) n
        then (do
          next ← deref (get_child tree (c + 1))
          ok (
              if get_type next == k_precision
              then tree
              else set_child tree c (append_precision child)))
        else ok tree

  unfoldable pub datatypes_from : ℕ → ℕ → ℕ → T → Result T
  datatypes_from n c zero tree = ok tree
  datatypes_from n c (suc left) tree = do
    tree' ← rewrite_double n c tree
    datatypes_from n (c + 1) left tree'

  unfoldable pub create_rewrite_datatypes : T → Result T
  unfolding datatypes_from rewrite_double
  create_rewrite_datatypes tree =
      datatypes_from (get_child_count tree) 0 (get_child_count tree) tree
