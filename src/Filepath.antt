-- ===== src/Filepath.antt =====
-- path/filepath of Go's library, as far as the program calls it: the parts of an absolute path, cleaned.
use nile.Prelude.{Bytes, ascii, bytes_eq, ◌==◌, if◌then◌else◌, List, [], ◌∷◌, ◌++◌}

-- The parts between slashes.
unfoldable pub split_slash : Bytes → List Bytes
split_slash [] = [] ∷ []
split_slash (c ∷ cs) = elim (split_slash cs) [
  | [] ↦ []
  | part ∷ parts ↦ if c == 47 then [] ∷ (part ∷ parts) else (c ∷ part) ∷ parts
]

-- One part on the path so far, the last part first. At the root ".." stays there.
unfoldable pub step_into : List Bytes → Bytes → List Bytes
step_into [] part =
    if bytes_eq part []
    then []
    else if bytes_eq part (ascii ".")
    then []
    else if bytes_eq part (ascii "..")
    then []
    else part ∷ []
step_into (last ∷ above) part =
    if bytes_eq part []
    then last ∷ above
    else if bytes_eq part (ascii ".")
    then last ∷ above
    else if bytes_eq part (ascii "..")
    then above
    else part ∷ (last ∷ above)

unfoldable pub walk : List Bytes → List Bytes → List Bytes
unfolding step_into
walk at [] = at
walk at (part ∷ parts) = walk (step_into at part) parts

-- The path with its last part first, as a text.
unfoldable pub rooted : List Bytes → Bytes
rooted [] = []
rooted (part ∷ above) = rooted above ++ (47 ∷ part)
