-- ===== src/Cli/Watch/Following.antt =====
-- The lines of `nile watch` of cmd/nile/main.go and the logs that its rounds open.
use nile.Prelude.{
  ℤ, pos, negsuc, ◌≡◌, ◌≢◌, refl, ap, ◌∙◌, arith, and→both, true, false, if_cases, List, [], ◌∷◌,
}
use nile.Wal.Disk.{Os, Result, ok, err, Disk}
use nile.Wal.Log.{Log, default_options, next_index, depth}
use nile.Wal.Log.Recovery.{open_log}
use nile.Cli.Watch.{
  int64, int_eq, watch_start, Seen, WatchLine, seen_of, is_seen, watch_round, watch,
}

-- The states of the logs, without the rounds whose log cannot be opened.
abbrev pub with_state : Result Log → List Seen → List Seen
with_state (err e) rest = rest
with_state (ok l) rest = seen_of l ∷ rest

abbrev pub states : Os → List Disk → List Seen
states os [] = []
states os (disk ∷ disks) = with_state (open_log os default_options disk) (states os disks)

abbrev pub shown : List WatchLine → List Seen
shown [] = []
shown (line ∷ lines) = record { seen_depth = line.depth; seen_next = line.next } ∷ shown lines

abbrev pub latest : Seen → List Seen → Seen
latest last [] = last
latest last (s ∷ ss) = latest s ss

-- No state is the one before it.
abbrev pub Changing : Seen → List Seen → Type 0
Changing last [] = Unit {0}
Changing last (s ∷ ss) = (last ≢ s) × Changing s ss

int_eq→eq : (a b : ℤ) → int_eq a b ≡ true → b ≡ a
int_eq→eq (pos a) (pos b) h = ap pos (ground arith)
int_eq→eq (pos a) (negsuc b) h = absurd (cc)
int_eq→eq (negsuc a) (pos b) h = absurd (cc)
int_eq→eq (negsuc a) (negsuc b) h = ap negsuc (ground arith)

int_eq_refl : (a : ℤ) → int_eq a a ≡ true
int_eq_refl (pos a) = ground arith
int_eq_refl (negsuc a) = ground arith

is_seen→eq : (last : Seen) (l : Log) → is_seen last l ≡ true → last ≡ seen_of l
is_seen→eq last l h =
    let (d, n) =
      and→both (int_eq (int64 (depth l)) last.seen_depth)
        (int_eq (int64 (next_index l)) last.seen_next) h in
    let d_eq = int_eq→eq (int64 (depth l)) last.seen_depth d in
    let n_eq = int_eq→eq (int64 (next_index l)) last.seen_next n in
    λ i. record { seen_depth = d_eq i; seen_next = n_eq i }

eq→is_seen : (l : Log) → is_seen (seen_of l) l ≡ true
eq→is_seen l = rw (int_eq_refl (int64 (depth l)), int_eq_refl (int64 (next_index l))) refl

seen_new : (last : Seen) (l : Log) → is_seen last l ≡ false → last ≢ seen_of l
seen_new last l h e = absurd (cc (eq→is_seen l, ap (λ s. is_seen s l) e, h))

abbrev Follows : Seen → List WatchLine → List Seen → Type 0
Follows last lines ss = (latest last (shown lines) ≡ latest last ss) × Changing last (shown lines)

watch-Follows :
    (os : Os) (last : Seen) (disks : List Disk)
    → Follows last (watch os last disks) (states os disks)
unfolding watch
watch-Follows os last [] = (refl, tt)
watch-Follows os last (disk ∷ disks) =
    round (open_log os default_options disk) (λ s. watch-Follows os s disks)
  where
    round :
        (r : Result Log)
        → ((s : Seen) → Follows s (watch os s disks) (states os disks))
        → Follows last (watch_round last r (λ s. watch os s disks)) (with_state r (states os disks))
    round (err e) ih = ih last
    round (ok l) ih =
        if_cases (λ lines. Follows last lines (seen_of l ∷ states os disks)) (is_seen last l)
          (λ e.
            ((ih last).0 ∙ ap (λ s. latest s (states os disks)) (is_seen→eq last l e), (ih last).1))
          (λ e. ((ih (seen_of l)).0, (seen_new last l e, (ih (seen_of l)).1)))

-- Whatever the rounds of `nile watch` find, and on any operating system: the last line shows the
-- depth and the next index of the last log that could be opened, and each line differs in one of the two numbers
-- from the line before it. The numbers are taken as signed ones of 64 bits. Before the first line -1 and -1 count
-- as shown, and before the first log as its numbers.
pub watch_follows :
    (os : Os) (disks : List Disk)
    → (latest watch_start (shown (watch os watch_start disks))
        ≡ latest watch_start (states os disks))
      × Changing watch_start (shown (watch os watch_start disks))
watch_follows os disks = watch-Follows os watch_start disks
