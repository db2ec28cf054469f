-- ===== src/Registry.antt =====
-- pkg/registry: FileRegistry, which keeps the endpoint of every copt in a file below a directory.
pub mod Discovery
pub mod Listing
mod Examples
use nile.Prelude.{
  ℕ, ◌-◌, suc, zero, Bytes, ascii, bytes_eq, ltb, ◌==◌, if◌then◌else◌, Bool, true, false, ◌&&◌,
  ◌||◌, not, Option, none, some, List, [], ◌∷◌, ◌++◌, length, take, drop,
}
use nile.Wal.Name.{has_prefix, has_suffix}
use nile.Trim.{trim_space}
use nile.Filepath.{split_slash, walk}

-- The parts of a cleaned path from the root, the last part first.
abbrev pub Place : Type 0
Place = List Bytes

abbrev pub place_eq : Place → Place → Bool
place_eq [] [] = true
place_eq [] (b ∷ bs) = false
place_eq (a ∷ as') [] = false
place_eq (a ∷ as') (b ∷ bs) = bytes_eq a b && place_eq as' bs

pub record NamedFile : Type 0 where
  pub place : Place
  pub content : Bytes

-- The directories, and the files among them; the latest write of a file is in front.
pub record Tree : Type 0 where
  pub dirs : List Place
  pub files : List NamedFile

pub data Call : Type 0 where
  make_dir create write read read_dir remove : Call

-- What the operating system does: whether a call succeeds there, and how much a write that fails has
-- written.
pub record Host : Type 0 where
  pub succeeds : Call → Place → Bool
  pub short_write : ℕ

pub data RegistryError : Type 0 where
  failed : Call → RegistryError
  not_found : Bytes → RegistryError

pub data Found : Type 0 where
  located : Bytes → Found
  missing : RegistryError → Found

pub record CoptInfo : Type 0 where
  pub name : Bytes
  pub endpoint : Bytes

unfoldable pub file_at : Place → List NamedFile → Option Bytes
file_at p [] = none
file_at p (f ∷ fs) = if place_eq f.place p then some f.content else file_at p fs

unfoldable pub without : Place → List NamedFile → List NamedFile
without p [] = []
without p (f ∷ fs) = if place_eq f.place p then without p fs else f ∷ without p fs

-- The root is always there.
unfoldable pub has_dir : Place → List Place → Bool
has_dir [] ds = true
has_dir (part ∷ above) [] = false
has_dir (part ∷ above) (d ∷ ds) = place_eq d (part ∷ above) || has_dir (part ∷ above) ds

-- os.MkdirAll: the directory and those above it.
unfoldable pub add_dirs : Place → List Place → List Place
unfolding has_dir
add_dirs [] dirs = dirs
add_dirs (part ∷ above) dirs =
    let ds = add_dirs above dirs in if has_dir (part ∷ above) ds then ds else (part ∷ above) ∷ ds

-- filepath.Join(baseDir, name) and filepath.Join(baseDir, name, "endpoint.sock")
abbrev pub copt_dir : Place → Bytes → Place
copt_dir base name = walk base (split_slash name)

abbrev pub endpoint_place : Place → Bytes → Place
endpoint_place base name = ascii "endpoint.sock" ∷ copt_dir base name

abbrev pub write_endpoint : Host → Place → Bytes → Tree → Option RegistryError × Tree
write_endpoint host place content t =
    if host.succeeds create place
    then if host.succeeds write place
      then (none, record t { files = record { place = place; content = content } ∷ t.files })
      else (
        some (failed write),
        record t {
          files = record { place = place; content = take host.short_write content } ∷ t.files;
        },
      )
    else (some (failed create), t)

-- Register
unfoldable pub register : Host → Place → Bytes → Bytes → Tree → Option RegistryError × Tree
unfolding add_dirs split_slash walk
register host base name endpoint t =
    if host.succeeds make_dir (copt_dir base name)
    then write_endpoint host (endpoint_place base name) endpoint
        (record t { dirs = add_dirs (copt_dir base name) t.dirs })
    else (some (failed make_dir), t)

abbrev pub found_at : Host → Place → Bytes → Option Bytes → Found
found_at host place name none = missing (not_found name)
found_at host place name (some data') =
    if host.succeeds read place then located (trim_space data') else missing (failed read)

-- Lookup
unfoldable pub lookup : Host → Place → Bytes → Tree → Found
unfolding file_at trim_space split_slash walk
lookup host base name t =
    let place = endpoint_place base name in found_at host place name (file_at place t.files)

abbrev pub deregister_found : Host → Place → Tree → Option Bytes → Option RegistryError × Tree
deregister_found host place t none = (none, t)
deregister_found host place t (some content) =
    if host.succeeds remove place
    then (none, record t { files = without place t.files })
    else (some (failed remove), t)

-- Deregister: a file that does not exist is no error.
unfoldable pub deregister : Host → Place → Bytes → Tree → Option RegistryError × Tree
unfolding file_at without split_slash walk
deregister host base name t =
    let place = endpoint_place base name in deregister_found host place t (file_at place t.files)

-- bytes.Compare of names, `<`.
abbrev pub name_lt : Bytes → Bytes → Bool
name_lt [] [] = false
name_lt [] (b ∷ bs) = true
name_lt (a ∷ as') [] = false
name_lt (a ∷ as') (b ∷ bs) = ltb a b || (a == b && name_lt as' bs)

unfoldable pub insert_name : Bytes → List Bytes → List Bytes
insert_name n [] = n ∷ []
insert_name n (m ∷ ms) = if name_lt m n then m ∷ insert_name n ms else n ∷ (m ∷ ms)

-- The directories right below `base`, in the order of os.ReadDir; the files there are passed over.
unfoldable pub names_below : Place → List Place → List Bytes
unfolding insert_name
names_below base [] = []
names_below base ([] ∷ ds) = names_below base ds
names_below base ((part ∷ above) ∷ ds) =
    let rest = names_below base ds in if place_eq above base then insert_name part rest else rest

abbrev pub with_found : Bytes → Found → List CoptInfo → List CoptInfo
with_found name (missing e) rest = rest
with_found name (located e) rest = record { name = name; endpoint = e } ∷ rest

unfoldable pub infos : Host → Place → Tree → List Bytes → List CoptInfo
unfolding lookup
infos host base t [] = []
infos host base t (name ∷ names) =
    with_found name (lookup host base name t) (infos host base t names)

-- List
pub data Listed : Type 0 where
  copts : List CoptInfo → Listed
  not_listed : RegistryError → Listed

unfoldable pub list : Host → Place → Tree → Listed
unfolding infos names_below has_dir
list host base t =
    if has_dir base t.dirs
    then if host.succeeds read_dir base
      then copts (infos host base t (names_below base t.dirs))
      else not_listed (failed read_dir)
    else copts []
