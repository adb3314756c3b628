-- ===== src/Main/ReadStdin/Laws.antt =====
-- Standard input without a NUL byte is read whole.
use pgify.Base.{
  ℕ, zero, suc, ◌≤◌, ◌≡◌, ◌≢◌, refl, sym, ap, ◌∙◌, List, [], ◌∷◌, ◌++◌, length, arith, test_of_ne,
}
use mathlib.Core.Path.{subst}
use mathlib.Core.List.{append-nil, append_assoc}
use pgify.Main.ReadStdin.{fgets, c_text, read_loop, read_stdin}

abbrev pub HasNoNul : List ℕ → Type 0
HasNoNul [] = Unit {0}
HasNoNul (b ∷ bytes) = (b ≢ 0) × HasNoNul bytes

fgets-joined : (room : ℕ) (bytes : List ℕ) → (fgets room bytes).0 ++ (fgets room bytes).1 ≡ bytes
unfolding fgets
fgets-joined zero bytes = refl
fgets-joined (suc room) [] = refl
fgets-joined (suc room) (b ∷ bytes) = ground (arith, fgets-joined room bytes)

fgets-shorter :
    (room b : ℕ) (bytes : List ℕ) → length (fgets (suc room) (b ∷ bytes)).1 ≤ length bytes
unfolding fgets
fgets-shorter zero b bytes = ground arith
fgets-shorter (suc room) b [] = ground arith
fgets-shorter (suc room) b (b' ∷ bytes) = ground (arith, fgets-shorter room b' bytes)

c_text-HasNoNul : (line : List ℕ) → HasNoNul line → c_text line ≡ line
unfolding c_text
c_text-HasNoNul [] h = refl
c_text-HasNoNul (b ∷ line) h = rw (test_of_ne _ _ h.0) (ap (◌∷◌ b) (c_text-HasNoNul line h.1))

HasNoNul-parts : (xs ys : List ℕ) → HasNoNul (xs ++ ys) → HasNoNul xs × HasNoNul ys
HasNoNul-parts [] ys h = (tt, h)
HasNoNul-parts (x ∷ xs) ys h = let (p, q) = HasNoNul-parts xs ys h.1 in ((h.0, p), q)

read_loop-eq :
    (fuel : ℕ) (buffer bytes : List ℕ)
    → length bytes ≤ fuel
    → HasNoNul bytes
    → read_loop fuel buffer bytes ≡ buffer ++ bytes
unfolding read_loop
read_loop-eq fuel buffer [] h n = rw append-nil
read_loop-eq zero buffer (b ∷ bytes) h n = absurd (omega arith)
read_loop-eq (suc fuel) buffer (b ∷ bytes) h n =
    let (line_ok, left_ok) =
      HasNoNul-parts _ _ (subst HasNoNul (sym (fgets-joined 2047 (b ∷ bytes))) n) in
    let line = (fgets 2047 (b ∷ bytes)).0 in
    let left = (fgets 2047 (b ∷ bytes)).1 in
    ap (λ l. read_loop fuel (buffer ++ l) left) (c_text-HasNoNul line line_ok)
    ∙ read_loop-eq fuel (buffer ++ line) left (omega (arith, fgets-shorter 2046 b bytes)) left_ok
    ∙ append_assoc buffer line left
    ∙ ap (◌++◌ buffer) (fgets-joined 2047 (b ∷ bytes))

-- Standard input that holds no NUL byte is read whole, however long its lines are.
pub read_stdin_lem : (bytes : List ℕ) → HasNoNul bytes → read_stdin bytes ≡ bytes
unfolding read_stdin
read_stdin_lem bytes n = read_loop-eq (length bytes) [] bytes (omega arith) n
