-- ===== src/Registry/Discovery.antt =====
-- The operations of pkg/registry/file.go one after the other.
use nile.Prelude.{
  and→both, ◌≡◌, refl, ap, sym, ◌∙◌, Bytes, bytes_eq, bytes_eq_refl, bytes_eq→eq, if◌then◌else◌,
  if_cases, true, false, Option, none, some, List, [], ◌∷◌,
}
use nile.Trim.{trim_space}
use nile.Registry.{
  Place, place_eq, NamedFile, Tree, read, make_dir, create, write, remove, Host, RegistryError,
  not_found, located, missing, file_at, without, copt_dir, endpoint_place, register, found_at,
  lookup, deregister, deregister_found,
}

pub place_eq_refl : (p : Place) → place_eq p p ≡ true
place_eq_refl [] = refl
place_eq_refl (a ∷ p) = rw (bytes_eq_refl a, place_eq_refl p) refl

pub place_eq→eq : (p q : Place) → place_eq p q ≡ true → p ≡ q
place_eq→eq [] [] h = refl
place_eq→eq [] (b ∷ q) h = absurd (cc)
place_eq→eq (a ∷ p) [] h = absurd (cc)
place_eq→eq (a ∷ p) (b ∷ q) h =
    let (same, rest) = and→both (bytes_eq a b) (place_eq p q) h in
    ap (λ c. c ∷ p) (bytes_eq→eq a b same) ∙ ap (λ r. b ∷ r) (place_eq→eq p q rest)

-- A lookup depends on the files alone.
lookup-files :
    (host : Host) (base : Place) (name : Bytes) (t : Tree)
    → lookup host base name t
      ≡ found_at host (endpoint_place base name) name (file_at (endpoint_place base name) t.files)
unfolding lookup
lookup-files host base name t = refl

file_at-new :
    (p : Place) (content : Bytes) (fs : List NamedFile)
    → file_at p (record { place = p; content = content } ∷ fs) ≡ some content
unfolding file_at
file_at-new p content fs = rw (place_eq_refl p) refl

file_at-other :
    (p q : Place) (content : Bytes) (fs : List NamedFile)
    → place_eq p q ≡ false
    → file_at q (record { place = p; content = content } ∷ fs) ≡ file_at q fs
unfolding file_at
file_at-other p q content fs h = rw h refl

lookup-found :
    (host : Host) (base : Place) (name content : Bytes) (t : Tree)
    → file_at (endpoint_place base name) t.files ≡ some content
    → host.succeeds read (endpoint_place base name) ≡ true
    → lookup host base name t ≡ located (trim_space content)
lookup-found host base name content t e readable =
    lookup-files host base name t
    ∙ ap (found_at host (endpoint_place base name) name) e
    ∙ rw readable refl

lookup-same :
    (host : Host) (base : Place) (name : Bytes) (t u : Tree)
    → file_at (endpoint_place base name) t.files ≡ file_at (endpoint_place base name) u.files
    → lookup host base name t ≡ lookup host base name u
lookup-same host base name t u e =
    lookup-files host base name t
    ∙ ap (found_at host (endpoint_place base name) name) e
    ∙ sym (lookup-files host base name u)

-- A registration that reports no error is found: where the file can be read, Lookup returns the
-- endpoint without the spaces around it.
pub lookup-register :
    (host : Host) (base : Place) (name ep : Bytes) (t : Tree)
    → (register host base name ep t).0 ≡ none
    → host.succeeds read (endpoint_place base name) ≡ true
    → lookup host base name (register host base name ep t).1 ≡ located (trim_space ep)
unfolding register
lookup-register host base name ep t =
    if_cases Finds (host.succeeds make_dir (copt_dir base name))
      (λ _.
        if_cases Finds (host.succeeds create (endpoint_place base name))
          (λ _.
            if_cases Finds (host.succeeds write (endpoint_place base name))
              (λ _ _ readable.
                lookup-found host base name ep _ (file_at-new (endpoint_place base name) ep t.files)
                  readable)
              (λ _ e. absurd (cc)))
          (λ _ e. absurd (cc)))
      (λ _ e. absurd (cc))
  where
    Finds : Option RegistryError × Tree → Type 0
    Finds r =
        r.0 ≡ none
        → host.succeeds read (endpoint_place base name) ≡ true
        → lookup host base name r.1 ≡ located (trim_space ep)

register-files :
    (host : Host) (base : Place) (name ep : Bytes) (t : Tree) (q : Place)
    → place_eq (endpoint_place base name) q ≡ false
    → file_at q (register host base name ep t).1.files ≡ file_at q t.files
unfolding register
register-files host base name ep t q h =
    if_cases Same (host.succeeds make_dir (copt_dir base name))
      (λ _.
        if_cases Same (host.succeeds create (endpoint_place base name))
          (λ _.
            if_cases Same (host.succeeds write (endpoint_place base name))
              (λ _. file_at-other (endpoint_place base name) q ep t.files h)
              (λ _. file_at-other (endpoint_place base name) q _ t.files h))
          (λ _. refl))
      (λ _. refl)
  where
    Same : Option RegistryError × Tree → Type 0
    Same r = file_at q r.1.files ≡ file_at q t.files

file_at-without : (p : Place) (fs : List NamedFile) → file_at p (without p fs) ≡ none
unfolding file_at without
file_at-without p [] = refl
file_at-without p (f ∷ fs) =
    if_cases (λ gs. file_at p gs ≡ none) (place_eq f.place p) (λ _. file_at-without p fs)
      (λ e. rw e (file_at-without p fs))

file_at-without_other :
    (p q : Place) (fs : List NamedFile)
    → place_eq p q ≡ false
    → file_at q (without p fs) ≡ file_at q fs
unfolding file_at without
file_at-without_other p q [] h = refl
file_at-without_other p q (f ∷ fs) h =
    if_cases (λ gs. file_at q gs ≡ file_at q (f ∷ fs)) (place_eq f.place p)
      (λ e.
        let other : place_eq f.place q ≡ false =
          ap (λ r. place_eq r q) (place_eq→eq f.place p e) ∙ h in
        file_at-without_other p q fs h ∙ (rw other refl))
      (λ e.
        ap (λ o. if place_eq f.place q then some f.content else o) (file_at-without_other p q fs h))

-- A deregistration that reports no error leaves no endpoint of that copt.
pub lookup-deregister :
    (host : Host) (base : Place) (name : Bytes) (t : Tree)
    → (deregister host base name t).0 ≡ none
    → lookup host base name (deregister host base name t).1 ≡ missing (not_found name)
unfolding deregister
lookup-deregister host base name t = by_file (file_at (endpoint_place base name) t.files) refl
  where
    Gone : Option RegistryError × Tree → Type 0
    Gone r = r.0 ≡ none → lookup host base name r.1 ≡ missing (not_found name)

    absent :
        (u : Tree)
        → file_at (endpoint_place base name) u.files ≡ none
        → lookup host base name u ≡ missing (not_found name)
    absent u e =
        lookup-files host base name u ∙ ap (found_at host (endpoint_place base name) name) e

    by_file :
        (o : Option Bytes)
        → file_at (endpoint_place base name) t.files ≡ o
        → Gone (deregister_found host (endpoint_place base name) t o)
    by_file none e = λ _. absent t e
    by_file (some content) e =
        if_cases Gone (host.succeeds remove (endpoint_place base name))
          (λ _ _. absent _ (file_at-without (endpoint_place base name) t.files))
          (λ _ e'. absurd (cc))

deregister-files :
    (host : Host) (base : Place) (name : Bytes) (t : Tree) (q : Place)
    → place_eq (endpoint_place base name) q ≡ false
    → file_at q (deregister host base name t).1.files ≡ file_at q t.files
unfolding deregister
deregister-files host base name t q h = by_file (file_at (endpoint_place base name) t.files)
  where
    Same : Option RegistryError × Tree → Type 0
    Same r = file_at q r.1.files ≡ file_at q t.files

    by_file : (o : Option Bytes) → Same (deregister_found host (endpoint_place base name) t o)
    by_file none = refl
    by_file (some content) =
        if_cases Same (host.succeeds remove (endpoint_place base name))
          (λ _. file_at-without_other (endpoint_place base name) q t.files h) (λ _. refl)

-- Whether or not they succeed, Register and Deregister of one copt do not change what Lookup says of
-- a copt whose file has another path.
lookup-others :
    (host : Host) (base : Place) (name other ep : Bytes) (t : Tree)
    → place_eq (endpoint_place base name) (endpoint_place base other) ≡ false
    → (lookup host base other (register host base name ep t).1 ≡ lookup host base other t)
      × (lookup host base other (deregister host base name t).1 ≡ lookup host base other t)
lookup-others host base name other ep t h = (
  lookup-same host base other _ t
      (register-files host base name ep t (endpoint_place base other) h),
  lookup-same host base other _ t (deregister-files host base name t (endpoint_place base other) h),
)
