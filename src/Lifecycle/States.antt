-- ===== src/Lifecycle/States.antt =====
-- pkg/lifecycle/states.go: the states, their names and the table of transitions.
pub mod Paths
use nile.Prelude.{
  ℕ, Bytes, ascii, ◌==◌, ltb, if◌then◌else◌, Bool, true, false, ◌||◌, List, [], ◌∷◌, ◌++◌,
}
use nile.Wal.Name.{digits}

pub data State : Type 0 where
  created starting idle processing post_processing draining retaining stopping stopped failed :
      State

-- The value of the constant, counted by iota.
abbrev pub ordinal : State → ℕ
ordinal created = 0
ordinal starting = 1
ordinal idle = 2
ordinal processing = 3
ordinal post_processing = 4
ordinal draining = 5
ordinal retaining = 6
ordinal stopping = 7
ordinal stopped = 8
ordinal failed = 9

-- String, for the declared states. The lookup `stateNames[s]` is the clause of the state's number.
unfoldable pub state_name : State → Bytes
state_name created = ascii "created"
state_name starting = ascii "starting"
state_name idle = ascii "idle"
state_name processing = ascii "processing"
state_name post_processing = ascii "post_processing"
state_name draining = ascii "draining"
state_name retaining = ascii "retaining"
state_name stopping = ascii "stopping"
state_name stopped = ascii "stopped"
state_name failed = ascii "failed"

-- A missing key of the map is the empty slice.
unfoldable pub valid_transitions : State → List State
valid_transitions created = starting ∷ []
valid_transitions starting = idle ∷ failed ∷ []
valid_transitions idle = processing ∷ draining ∷ stopping ∷ []
valid_transitions processing = post_processing ∷ idle ∷ []
valid_transitions post_processing = idle ∷ []
valid_transitions draining = retaining ∷ []
valid_transitions retaining = idle ∷ failed ∷ []
valid_transitions stopping = stopped ∷ []
valid_transitions failed = starting ∷ []
valid_transitions stopped = []

-- States are integers in Go, and compared as such.
abbrev pub same_state : State → State → Bool
same_state s t = ordinal s == ordinal t

-- The loop of canTransition over the row of `from`.
contains : List State → State → Bool
contains [] to = false
contains (allowed ∷ rest) to = same_state allowed to || contains rest to

unfoldable pub can_transition : State → State → Bool
unfolding contains valid_transitions
can_transition from to = contains (valid_transitions from) to
