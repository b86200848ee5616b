-- ===== src/Connection.antt =====
-- src/enclave_proc/connection.rs: which requester may run which command.
pub mod Policy
pub mod Stream
pub mod Replies
pub mod Tests
use aws_nitro_enclaves_cli.Common.{
  ℕ, Bool, true, false, ◌||◌, Option, none, some, List, [], ◌∷◌, ◌==◌, if◌then◌else◌,
}
use aws_nitro_enclaves_cli.Command.{
  EnclaveProcessCommandType, run, terminate, terminate_complete, describe, get_enclave_cid,
  get_enclave_flags, get_enclave_name, get_id_by_name, connection_listener_stop, not_permitted,
  same_command,
}

pub data CommandRequesterType : Type 0 where
  user : ℕ → CommandRequesterType
  group : ℕ → CommandRequesterType
  others : CommandRequesterType

-- The derived `PartialEq`.
abbrev same_requester : CommandRequesterType → CommandRequesterType → Bool
same_requester (user a) (user b) = a == b
same_requester (group a) (group b) = a == b
same_requester others others = true
same_requester _ _ = false

-- The hash map of the rules, as an association list.
abbrev pub Rules : Type 0
Rules = List (CommandRequesterType × List EnclaveProcessCommandType)

pub record CommandRequesterPolicy : Type 0 where
  pub policy : Rules

-- `HashMap::insert`: a rule that is there is replaced.
unfoldable pub insert : CommandRequesterType → List EnclaveProcessCommandType → Rules → Rules
insert r commands [] = (r, commands) ∷ []
insert r commands ((s, allowed) ∷ rules) =
    if same_requester s r then (r, commands) ∷ rules else (s, allowed) ∷ insert r commands rules

unfoldable pub get : CommandRequesterType → Rules → Option (List EnclaveProcessCommandType)
get r [] = none
get r ((s, allowed) ∷ rules) = if same_requester s r then some allowed else get r rules

unfoldable pub contains : List EnclaveProcessCommandType → EnclaveProcessCommandType → Bool
contains [] cmd = false
contains (c ∷ cs) cmd = same_command c cmd || contains cs cmd

abbrev cmds_read_write : List EnclaveProcessCommandType
cmds_read_write =
    run ∷ terminate ∷ terminate_complete ∷ describe ∷ get_enclave_cid ∷ get_enclave_flags
    ∷ get_enclave_name ∷ get_id_by_name ∷ connection_listener_stop ∷ []

abbrev cmds_read_only : List EnclaveProcessCommandType
cmds_read_only =
    describe ∷ get_enclave_cid ∷ get_enclave_flags ∷ get_enclave_name ∷ get_id_by_name ∷ []

-- `uid` is the user of the enclave process, as `getuid` gives it.
unfoldable pub new_with_defaults : ℕ → CommandRequesterPolicy
unfolding insert
new_with_defaults uid = record {
  policy =
      insert others cmds_read_only
        (insert (user 0) cmds_read_write (insert (user uid) cmds_read_write []));
}

abbrev allows : Option (List EnclaveProcessCommandType) → EnclaveProcessCommandType → Bool
allows none cmd = false
allows (some allowed_cmds) cmd = contains allowed_cmds cmd

unfoldable pub find_policy_rule :
    CommandRequesterPolicy → EnclaveProcessCommandType → CommandRequesterType → Bool
unfolding get contains
find_policy_rule p cmd requester = allows (get requester p.policy) cmd

-- The credentials of the peer of a socket.
pub record UnixCredentials : Type 0 where
  pub uid : ℕ
  pub gid : ℕ

unfoldable pub can_execute_command :
    CommandRequesterPolicy → EnclaveProcessCommandType → UnixCredentials → Bool
unfolding find_policy_rule
can_execute_command p cmd creds =
    if find_policy_rule p cmd (user creds.uid)
    then true
    else if find_policy_rule p cmd (group creds.gid)
    then true
    else if find_policy_rule p cmd others
    then true
    else false

-- The end of `read_command`, for the command that was received and the credentials of the
-- requester, which are missing if the system cannot tell them.
unfoldable pub admitted :
    ℕ → EnclaveProcessCommandType → Option UnixCredentials → EnclaveProcessCommandType
unfolding can_execute_command new_with_defaults
admitted uid cmd none = not_permitted
admitted uid cmd (some creds) =
    if can_execute_command (new_with_defaults uid) cmd creds then cmd else not_permitted
