-- ===== src/Server/Ban/Blocker.antt =====
-- InMemoryDispatchBlocker of internal/adapters/enforcement/blocker.go: for each workflow type the
-- set of the clients banned from it; the type "" holds the global bans. The lock makes each
-- method one step.
use super_duper_bassoon.Common.{
  String, Bool, true, false, [], Option, none, some, if◌then◌else◌, not,
}
use super_duper_bassoon.Common.Dict.{Dict, lookup, insert, delete}
use super_duper_bassoon.Common.Time.{Time}
use super_duper_bassoon.Server.Ban.Record.{BanRecord, is_active}

abbrev pub Blocker : Type 0
Blocker = Dict (Dict (Unit {0}))

abbrev pub new_blocker : Blocker
new_blocker = []

abbrev pub is_some : {A : Type 0} → Option A → Bool
is_some none = false
is_some (some a) = true

-- if m, ok := b.bans[workflowType]; ok { if _, present := m[clientID]; present {
unfoldable pub cached : Blocker → String → String → Bool
cached b workflow_type client_id = elim (lookup workflow_type b) [
  | none ↦ false
  | some m ↦ is_some (lookup client_id m)
]

unfoldable pub should_block_dispatch : Blocker → String → String → Bool
should_block_dispatch b client_id workflow_type =
    if cached b workflow_type client_id then true else cached b "" client_id

abbrev pub set_of : Option (Dict (Unit {0})) → Dict (Unit {0})
set_of none = []
set_of (some m) = m

unfoldable pub add_pair : String → String → Blocker → Blocker
add_pair workflow_type client_id b =
    insert workflow_type (insert client_id tt (set_of (lookup workflow_type b))) b

-- `none` for a nil record
unfoldable pub add : Time → Option BanRecord → Blocker → Blocker
unfolding add_pair
add now none b = b
add now (some ban) b =
    if not (is_active now ban) then b else add_pair ban.workflow_type ban.client_id b

unfoldable pub remove : String → String → Blocker → Blocker
remove client_id workflow_type b = elim (lookup workflow_type b) [
  | none ↦ b
  | some m ↦ insert workflow_type (delete client_id m) b
]
