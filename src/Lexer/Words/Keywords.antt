-- ===== src/Lexer/Words/Keywords.antt =====
-- The rules for keywords, by their first letters.
pub mod A
pub mod B
pub mod C
pub mod D
pub mod E
pub mod F
pub mod GToH
pub mod IToK
pub mod L
pub mod M
pub mod N
pub mod O
pub mod PToQ
pub mod R
pub mod S
pub mod T
pub mod U
pub mod V
pub mod WToZ
use pgify.Base.{ℕ, List, [], ◌∷◌}
use pgify.Lexer.Words.Keyword.{Keyword}
use A.{words_a}
use B.{words_b}
use C.{words_c}
use D.{words_d}
use E.{words_e}
use F.{words_f}
use GToH.{words_g, words_h}
use IToK.{words_i, words_j, words_k}
use L.{words_l}
use M.{words_m}
use N.{words_n}
use O.{words_o}
use PToQ.{words_p, words_q}
use R.{words_r}
use S.{words_s}
use T.{words_t}
use U.{words_u}
use V.{words_v}
use WToZ.{words_w, words_x, words_y, words_z}

-- The keywords, in groups by their first letter.
abbrev pub vocabulary : List (ℕ × List Keyword)
vocabulary =
    (b'A', words_a)
    ∷ (b'B', words_b)
    ∷ (b'C', words_c)
    ∷ (b'D', words_d)
    ∷ (b'E', words_e)
    ∷ (b'F', words_f)
    ∷ (b'G', words_g)
    ∷ (b'H', words_h)
    ∷ (b'I', words_i)
    ∷ (b'J', words_j)
    ∷ (b'K', words_k)
    ∷ (b'L', words_l)
    ∷ (b'M', words_m)
    ∷ (b'N', words_n)
    ∷ (b'O', words_o)
    ∷ (b'P', words_p)
    ∷ (b'Q', words_q)
    ∷ (b'R', words_r)
    ∷ (b'S', words_s)
    ∷ (b'T', words_t)
    ∷ (b'U', words_u)
    ∷ (b'V', words_v)
    ∷ (b'W', words_w)
    ∷ (b'X', words_x)
    ∷ (b'Y', words_y)
    ∷ (b'Z', words_z)
    ∷ []
