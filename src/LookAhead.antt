-- ===== src/LookAhead.antt =====
-- `look_ahead_index` and `look_ahead_down` of pgify.c. The position -1 is `none`.
pub mod Laws
pub mod Down
use pgify.Base.{ℕ, zero, suc, ◌+◌, ◌-◌, Option, none, some, ltb, ◌==◌, if◌then◌else◌}
use pgify.Antlr.{Antlr, get_type, get_child, get_child_count, height}
use pgify.Result.{Result, ok, fault, out_of_fuel, deref, ◌>>=◌}

-- What a search below the child found ends the loop; otherwise the next child is read.
abbrev pub or_later : Option ℕ → Result (Option ℕ) → Result (Option ℕ)
or_later (some down) later = ok (some down)
or_later none later = later

module _ {T : Type 0} ⦃a : Antlr T⦄ where
  -- The loop at child `c`, with the number of children left to read.
  pub scan_index : T → ℕ → ℕ → ℕ → Result (Option ℕ)
  scan_index tree lookfor c zero = ok none
  scan_index tree lookfor c (suc left) =
      let later = scan_index tree lookfor (c + 1) left in
      do child ← deref (get_child tree c); if get_type child == lookfor then ok (some c) else later

  unfoldable pub look_ahead_index : T → ℕ → ℕ → Result (Option ℕ)
  unfolding scan_index
  look_ahead_index tree from lookfor = scan_index tree lookfor from (get_child_count tree - from)

  -- The loop and the call on a child's children; the fuel bounds the depth of the calls.
  pub scan_down : ℕ → T → ℕ → ℕ → ℕ → Result (Option ℕ)
  scan_down fuel tree lookfor c zero = ok none
  scan_down zero tree lookfor c (suc left) = fault out_of_fuel
  scan_down (suc fuel) tree lookfor c (suc left) =
      let later = scan_down (suc fuel) tree lookfor (c + 1) left in
      do
        child ← deref (get_child tree c)
        let below = scan_down fuel child lookfor 0 (get_child_count child)
        if get_type child == lookfor
            then ok (some c)
            else (if ltb 0 (get_child_count child)
                then (below >>= λ down. or_later down later)
                else later)

  unfoldable pub look_ahead_down : T → ℕ → ℕ → Result (Option ℕ)
  unfolding scan_down
  look_ahead_down tree from lookfor =
      scan_down (height tree) tree lookfor from (get_child_count tree - from)
