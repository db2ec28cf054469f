-- ===== src/Cli/Path.antt =====
-- The data directory that cmd/nile/main.go takes where none is given.
use nile.Prelude.{Bytes, ascii, [], ◌∷◌}
use nile.Filepath.{split_slash, walk, rooted}

abbrev pub or_root : Bytes → Bytes
or_root [] = ascii "/"
or_root (c ∷ cs) = c ∷ cs

-- filepath.Join("/var/lib/nile", name)
unfoldable pub default_data_dir : Bytes → Bytes
unfolding split_slash walk rooted
default_data_dir name =
    or_root (rooted (walk (ascii "nile" ∷ ascii "lib" ∷ ascii "var" ∷ []) (split_slash name)))
