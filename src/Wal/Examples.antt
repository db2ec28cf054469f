-- ===== src/Wal/Examples.antt =====
-- Inputs for the runs of pkg/wal that its children hold.
mod Texts
mod Skipping
mod Writers
mod Records
mod Streams
use nile.Prelude.{ℕ, zero, suc, ◌≡◌, refl, arith, Bytes, ascii, length, List, [], ◌∷◌}
use nile.Wal.Disk.{CursorState, empty_disk}
use nile.Wal.Cursor.{cursor_zero}
use nile.Wal.Log.{Wal, default_options}
use nile.Wal.Log.Recovery.{fresh_log}
use nile.Wal.Stream.{Parts, Holds, IsClean, holding}

abbrev pub start : Wal
start = record { log = fresh_log default_options cursor_zero; disk = empty_disk }

-- Two segments with three messages.
abbrev pub parts : Parts
parts = (ascii "a" ∷ ascii "bc" ∷ []) ∷ ((ascii "d" ∷ []) ∷ [])

abbrev pub stored : Wal
stored = holding start parts

pub stored-Holds : Holds stored parts
stored-Holds = record {
  state = refl;
  clean = record {
    filled = (omega arith, tt);
    fit = ((omega arith, (omega arith, tt)), ((omega arith, tt), tt));
    small = omega arith;
  };
}

pub zeros : ℕ → Bytes
zeros zero = []
zeros (suc n) = 0 ∷ zeros n

pub length-zeros : (n : ℕ) → length (zeros n) ≡ n
unfolding zeros
length-zeros zero = refl
length-zeros (suc n) = omega (arith, length-zeros n)
