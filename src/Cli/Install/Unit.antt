-- ===== src/Cli/Install/Unit.antt =====
-- The unit file of `nile install`, in cmd/nile/main.go, as a reader of unit files sees it.
use nile.Prelude.{
  ℕ, ◌≡◌, refl, ap, ◌∙◌, arith, and→both, Bytes, ascii, bytes_eq, ◌==◌, Bool, true, false,
  if◌then◌else◌, Option, none, some, List, [], ◌∷◌, ◌++◌, All, All-append,
}
use nile.Cli.Install.{UnitData, exec_words, join_words, exec_start, unit_text}
use nile.Cli.Install.Words.{is_plain, is_word, IsWord}

abbrev cons_head : ℕ → List Bytes → List Bytes
cons_head c [] = (c ∷ []) ∷ []
cons_head c (line ∷ rest) = (c ∷ line) ∷ rest

-- The lines of a text in front of the lines behind it.
abbrev lines_onto : Bytes → List Bytes → List Bytes
lines_onto [] behind = behind
lines_onto (c ∷ cs) behind =
    let rest = lines_onto cs behind in if c == 10 then [] ∷ rest else cons_head c rest

abbrev pub lines : Bytes → List Bytes
lines text = lines_onto text ([] ∷ [])

-- What follows the key at the start of a line.
abbrev pub after_key : Bytes → Bytes → Option Bytes
after_key [] line = some line
after_key (k ∷ ks) [] = none
after_key (k ∷ ks) (c ∷ cs) = let rest = after_key ks cs in if c == k then rest else none

abbrev is_header : Bytes → Bool
is_header [] = false
is_header (c ∷ cs) = c == 91

-- The value of the first line with the key in a section; `inside` is whether the lines start in it.
abbrev pub setting : Bytes → Bytes → Bool → List Bytes → Option Bytes
setting section key inside [] = none
setting section key inside (line ∷ rest) =
    let later =
      setting section key (if is_header line then bytes_eq line section else inside) rest in
    let here : Option Bytes = elim (after_key key line) [
      | none ↦ later
      | some value ↦ some value
    ] in
    if inside then here else later

-- The command of a service.
abbrev pub exec_setting : Bytes → Option Bytes
exec_setting text = setting (ascii "[Service]") (ascii "ExecStart=") false (lines text)

lines_onto-append :
    (a b : Bytes) (behind : List Bytes)
    → lines_onto (a ++ b) behind ≡ lines_onto a (lines_onto b behind)
lines_onto-append [] b behind = refl
lines_onto-append (c ∷ cs) b behind =
    ap (λ rest. if c == 10 then [] ∷ rest else cons_head c rest) (lines_onto-append cs b behind)

abbrev OneLine : Bytes → Type 0
OneLine = All (λ c. (c == 10) ≡ false)

lines_onto-one :
    (line : Bytes) (rest : List Bytes) → OneLine line → lines_onto line ([] ∷ rest) ≡ line ∷ rest
lines_onto-one [] rest h = refl
lines_onto-one (c ∷ cs) rest (h, hs) = rw h (ap (cons_head c) (lines_onto-one cs rest hs))

plain_one : (c : ℕ) → is_plain c ≡ true → (c == 10) ≡ false
plain_one c h = ground arith

IsWord-OneLine : (w : Bytes) → IsWord w → OneLine w
IsWord-OneLine [] h = tt
IsWord-OneLine (c ∷ []) h = (plain_one c h, tt)
IsWord-OneLine (c ∷ (d ∷ cs)) h =
    let (front, rest) = and→both (is_plain c) (is_word (d ∷ cs)) h in
    (plain_one c front, IsWord-OneLine (d ∷ cs) rest)

join_words-OneLine : (ws : List Bytes) → All IsWord ws → OneLine (join_words ws)
unfolding join_words
join_words-OneLine [] h = tt
join_words-OneLine (w ∷ []) (h, _) = IsWord-OneLine w h
join_words-OneLine (w ∷ (v ∷ ws)) (h, hs) =
    All-append (λ c. (c == 10) ≡ false) w _ (IsWord-OneLine w h)
      (refl, join_words-OneLine (v ∷ ws) hs)

lines-two :
    (a name b command c : Bytes)
    → OneLine name
    → OneLine command
    → lines (a ++ (name ++ ((10 ∷ b) ++ (command ++ (10 ∷ c)))))
      ≡ lines_onto a (name ∷ lines_onto b (command ∷ lines c))
lines-two a name b command c h k =
    lines_onto-append a _ _
    ∙ ap (lines_onto a) (
        lines_onto-append name _ _
        ∙ ap (λ ls. lines_onto name ([] ∷ ls))
            (lines_onto-append b _ _
              ∙ ap (lines_onto b)
                  (lines_onto-append command _ _ ∙ lines_onto-one command (lines c) k))
        ∙ lines_onto-one name _ h)

pub exec_setting-unit_text :
    (u : UnitData)
    → IsWord u.name
    → All IsWord (exec_words u)
    → exec_setting (unit_text u) ≡ some (exec_start u)
unfolding unit_text exec_start
exec_setting-unit_text u h hs = ap (setting (ascii "[Service]") (ascii "ExecStart=") false) (
    lines-two (ascii "[Unit]\nDescription=Nile copt: ") u.name
      (ascii "After=network.target\n\n[Service]\nType=simple\nExecStart=") (exec_start u)
      (ascii "Restart=on-failure\nRestartSec=5\n\n[Install]\nWantedBy=default.target\n")
      (IsWord-OneLine u.name h) (join_words-OneLine (exec_words u) hs))
