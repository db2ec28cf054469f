-- ===== src/Registry/Examples.antt =====
-- A registry below /run/nile on a system where every call succeeds.
use mathlib.Core.List.{Memᴰ}
use nile.Prelude.{◌≡◌, refl, ascii, true, List, [], ◌∷◌}
use nile.Trim.{trim_space}
use nile.Registry.{Place, Tree, Host, CoptInfo, register, copts, list}
use nile.Registry.Listing.{list-register}

abbrev run_nile : Place
run_nile = ascii "nile" ∷ ascii "run" ∷ []

abbrev host : Host
host = record { succeeds = λ c p. true; short_write = 0 }

abbrev empty : Tree
empty = record { dirs = []; files = [] }

abbrev registered : Tree
registered = record {
  dirs = (ascii "a" ∷ run_nile) ∷ run_nile ∷ [];
  files =
      record { place = ascii "endpoint.sock" ∷ (ascii "a" ∷ run_nile); content = ascii "unix:a" }
      ∷ [];
}

list-register_example :
    (is : List CoptInfo) × (list host run_nile
        (register host run_nile (ascii "b") (ascii "unix:b") registered).1
      ≡ copts is)
    × Memᴰ (record { name = ascii "b"; endpoint = trim_space (ascii "unix:b") }) is
unfolding register
list-register_example =
    list-register host run_nile (ascii "b") (ascii "unix:b") registered refl refl refl refl
