-- ===== src/Sandbox.antt =====
-- pkg/sandbox/landlock.go: the command of the neb and its environment.
use nile.Prelude.{Bytes, ascii, Bool, if◌then◌else◌, Option, none, some, List, [], ◌∷◌, ◌++◌}

-- Config. ExtraReadPaths and ExtraWritePaths are read by no function.
pub record SandboxConfig : Type 0 where
  pub neb_binary : Bytes
  pub state_dir : Bytes
  pub retain_dir : Bytes
  pub network : Bool

pub record NebCommand : Type 0 where
  pub path : Bytes
  pub env : List Bytes

abbrev pub neb_env : SandboxConfig → List Bytes
neb_env cfg =
    ascii "PATH=/usr/bin:/bin"
    ∷ (ascii "NILE_STATE_DIR=" ++ cfg.state_dir)
    ∷ (ascii "NILE_RETAIN_DIR=" ++ cfg.retain_dir)
    ∷ (if cfg.network then ascii "NILE_NETWORK=1" ∷ [] else [])

-- Command; `exists` is os.Stat.
unfoldable pub neb_command : (Bytes → Bool) → SandboxConfig → Option NebCommand
neb_command exists cfg =
    if exists cfg.neb_binary
    then some (record { path = cfg.neb_binary; env = neb_env cfg })
    else none
