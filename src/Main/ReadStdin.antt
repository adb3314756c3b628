-- ===== src/Main/ReadStdin.antt =====
-- `read_stdin` of main.c, over the bytes that standard input holds.
pub mod Laws
use pgify.Base.{
  ℕ, zero, suc, Option, none, some, List, [], ◌∷◌, ◌++◌, ◌-◌, length, ◌==◌, if◌then◌else◌,
}

abbrev pub buf_size : ℕ
buf_size = 2048

-- C's `fgets`, with room for so many bytes: up to a newline, and what it leaves.
unfoldable pub fgets : ℕ → List ℕ → List ℕ × List ℕ
fgets zero bytes = ([], bytes)
fgets (suc room) [] = ([], [])
fgets (suc room) (b ∷ bytes) =
    let (line, left) = fgets room bytes in if b == b'\n' then (b ∷ [], bytes) else (b ∷ line, left)

-- The part of a buffer that a C text holds: up to the first NUL.
unfoldable pub c_text : List ℕ → List ℕ
c_text [] = []
c_text (b ∷ bytes) = let rest = b ∷ c_text bytes in if b == 0 then [] else rest

-- `fgets` answers NULL at the end of the input, and the loop ends. The room is `buf_size` less the
-- closing NUL. Each round reads a byte at least, so the number of bytes is fuel enough.
unfoldable pub read_loop : ℕ → List ℕ → List ℕ → List ℕ
read_loop fuel buffer [] = buffer
read_loop zero buffer (b ∷ bytes) = buffer
read_loop (suc fuel) buffer (b ∷ bytes) =
    let (line, left) = fgets (buf_size - 1) (b ∷ bytes) in
    read_loop fuel (buffer ++ c_text line) left

unfoldable pub read_stdin : List ℕ → List ℕ
unfolding read_loop
read_stdin bytes = read_loop (length bytes) [] bytes
