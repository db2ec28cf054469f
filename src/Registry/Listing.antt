-- ===== src/Registry/Listing.antt =====
-- List of pkg/registry/file.go behind a registration.
use mathlib.Core.List.{Memᴰ}
use mathlib.Core.List.Memᴰ
use nile.Prelude.{
  and→both, ◌≡◌, refl, ap, sym, subst, ◌∙◌, Bytes, bytes_eq, bytes_eq→eq, if_cases, Bool, true,
  false, ◌||◌, ◌⊎◌, inl, inr, Option, none, List, [], ◌∷◌,
}
use nile.Trim.{trim_space}
use nile.Registry.{
  Place, place_eq, Tree, read, read_dir, make_dir, create, write, Host, RegistryError, Found,
  located, missing, CoptInfo, has_dir, add_dirs, copt_dir, endpoint_place, register, lookup,
  name_lt, insert_name, names_below, with_found, infos, copts, list,
}
use nile.Registry.Discovery.{place_eq_refl, lookup-register}

insert_name-new : (n : Bytes) (l : List Bytes) → Memᴰ n (insert_name n l)
unfolding insert_name
insert_name-new n [] = Memᴰ.head refl
insert_name-new n (m ∷ ms) =
    if_cases (Memᴰ n) (name_lt m n) (λ _. Memᴰ.tail (insert_name-new n ms)) (λ _. Memᴰ.head refl)

insert_name-old : (n k : Bytes) (l : List Bytes) → Memᴰ k l → Memᴰ k (insert_name n l)
unfolding insert_name
insert_name-old n k [] h = Memᴰ.tail h
insert_name-old n k (m ∷ ms) h =
    if_cases (Memᴰ k) (name_lt m n)
      (λ _. elim (Memᴰ.cases_cons h) [
        | inl e ↦ Memᴰ.head e
        | inr r ↦ Memᴰ.tail (insert_name-old n k ms r)
      ])
      (λ _. Memᴰ.tail h)

or_right : (a b : Bool) → b ≡ true → (a || b) ≡ true
or_right true b h = refl
or_right false b h = h

or→either : (a b : Bool) → (a || b) ≡ true → (a ≡ true) ⊎ (b ≡ true)
or→either true b h = inl refl
or→either false b h = inr h

names_below-has_dir :
    (name : Bytes) (base : Place) (ds : List Place)
    → has_dir (name ∷ base) ds ≡ true
    → Memᴰ name (names_below base ds)
unfolding names_below has_dir
names_below-has_dir name base [] h = absurd (cc)
names_below-has_dir name base ([] ∷ ds) h = names_below-has_dir name base ds h
names_below-has_dir name base ((part ∷ above) ∷ ds) h =
    elim (or→either (place_eq (part ∷ above) (name ∷ base)) (has_dir (name ∷ base) ds) h) [
      | inl e ↦
          let (same, below) = and→both (bytes_eq part name) (place_eq above base) e in
          rw below (
            Memᴰ.cast (sym (bytes_eq→eq part name same))
              (insert_name-new part (names_below base ds)))
      | inr e ↦
          let m = names_below-has_dir name base ds e in
          if_cases (Memᴰ name) (place_eq above base) (λ _. insert_name-old part name _ m) (λ _. m)
    ]

has_dir-add_dirs : (p : Place) (ds : List Place) → has_dir p (add_dirs p ds) ≡ true
unfolding add_dirs
has_dir-add_dirs [] ds = refl
has_dir-add_dirs (part ∷ above) ds =
    if_cases (λ es. has_dir (part ∷ above) es ≡ true) (has_dir (part ∷ above) (add_dirs above ds))
      (λ e. e) (λ _. rw (place_eq_refl (part ∷ above)) refl)

-- The directory above one that is there.
has_dir-above :
    (part : Bytes) (above : Place) (ds : List Place)
    → has_dir above (add_dirs (part ∷ above) ds) ≡ true
unfolding add_dirs
has_dir-above part [] ds = refl
has_dir-above part (q ∷ qs) ds =
    if_cases (λ es. has_dir (q ∷ qs) es ≡ true) (has_dir (part ∷ (q ∷ qs)) (add_dirs (q ∷ qs) ds))
      (λ _. has_dir-add_dirs (q ∷ qs) ds)
      (λ _. or_right (place_eq (part ∷ (q ∷ qs)) (q ∷ qs)) _ (has_dir-add_dirs (q ∷ qs) ds))

infos-Mem :
    (host : Host) (base : Place) (t : Tree) (name e : Bytes) (names : List Bytes)
    → Memᴰ name names
    → lookup host base name t ≡ located e
    → Memᴰ (record { name = name; endpoint = e }) (infos host base t names)
unfolding infos
infos-Mem host base t name e [] m found = absurd (Memᴰ.not-nil m)
infos-Mem host base t name e (n ∷ names) m found = elim (Memᴰ.cases_cons m) [
  | inl same ↦
      subst
        (λ f.
          Memᴰ (record { name = name; endpoint = e }) (with_found n f (infos host base t names)))
        (sym (ap (λ k. lookup host base k t) (sym same) ∙ found))
        (Memᴰ.head (ap (λ k. record { name = k; endpoint = e }) same))
  | inr rest ↦ skip (lookup host base n t) (infos-Mem host base t name e names rest found)
]
  where
    skip :
        (f : Found) {is : List CoptInfo}
        → Memᴰ (record { name = name; endpoint = e }) is
        → Memᴰ (record { name = name; endpoint = e }) (with_found n f is)
    skip (missing x) h = h
    skip (located x) h = Memᴰ.tail h

register-dirs :
    (host : Host) (base : Place) (name ep : Bytes) (t : Tree)
    → (register host base name ep t).0 ≡ none
    → (register host base name ep t).1.dirs ≡ add_dirs (copt_dir base name) t.dirs
unfolding register
register-dirs host base name ep t =
    if_cases Added (host.succeeds make_dir (copt_dir base name))
      (λ _.
        if_cases Added (host.succeeds create (endpoint_place base name))
          (λ _.
            if_cases Added (host.succeeds write (endpoint_place base name)) (λ _ _. refl)
              (λ _ e. absurd (cc)))
          (λ _ e. absurd (cc)))
      (λ _ e. absurd (cc))
  where
    Added : Option RegistryError × Tree → Type 0
    Added r = r.0 ≡ none → r.1.dirs ≡ add_dirs (copt_dir base name) t.dirs

list-readable :
    (host : Host) (base : Place) (t : Tree)
    → has_dir base t.dirs ≡ true
    → host.succeeds read_dir base ≡ true
    → list host base t ≡ copts (infos host base t (names_below base t.dirs))
unfolding list
list-readable host base t h k = rw (h, k) refl

-- Behind a registration that reports no error, of a name that is one directory below the
-- registry's, where the directory and the endpoint's file can be read: List returns the copts
-- without an error, and the copt is among them with its endpoint, without the spaces around it.
pub list-register :
    (host : Host) (base : Place) (name ep : Bytes) (t : Tree)
    → copt_dir base name ≡ name ∷ base
    → (register host base name ep t).0 ≡ none
    → host.succeeds read (endpoint_place base name) ≡ true
    → host.succeeds read_dir base ≡ true
    → (is : List CoptInfo) × (list host base (register host base name ep t).1 ≡ copts is)
      × Memᴰ (record { name = name; endpoint = trim_space ep }) is
list-register host base name ep t below done readable lists =
    let u = (register host base name ep t).1 in
    let dirs_eq : u.dirs ≡ add_dirs (name ∷ base) t.dirs =
      register-dirs host base name ep t done ∙ ap (λ p. add_dirs p t.dirs) below in
    (
      infos host base u (names_below base u.dirs),
      list-readable host base u (ap (has_dir base) dirs_eq ∙ has_dir-above name base t.dirs) lists,
      infos-Mem host base u name (trim_space ep) (names_below base u.dirs)
          (names_below-has_dir name base u.dirs
            (ap (has_dir (name ∷ base)) dirs_eq ∙ has_dir-add_dirs (name ∷ base) t.dirs))
          (lookup-register host base name ep t done readable),
    )
