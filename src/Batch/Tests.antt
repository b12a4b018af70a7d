-- ===== src/Batch/Tests.antt =====
-- A run of lines that load a file between two commands.
use kahuna.Common.{◌≡◌, refl, List, [], ◌∷◌, Option, some, ok}
use kahuna.Decoders.{Text, codes}
use kahuna.Batch.{action_of, add_batch_commands}
use kahuna.Batch.Order.{add_batch_commands-of_files}

-- Each command is its own message.
abbrev as_text : Text → Option Text
as_text command = some command

abbrev nested : Text → List Text
nested path = codes "inner" ∷ []

abbrev lines : List Text
lines = codes "first; run_command_file \"f\" # one" ∷ codes " # two" ∷ codes "last" ∷ []

nested_run :
    add_batch_commands as_text nested 2 lines []
    ≡ ok (codes "inner" ∷ codes "first" ∷ codes "last" ∷ [])
unfolding add_batch_commands
nested_run = refl

add_batch_commands-of_files_example :
    add_batch_commands as_text nested 2 lines (codes "queued" ∷ [])
    ≡ ok (codes "queued" ∷ codes "inner" ∷ codes "first" ∷ codes "last" ∷ [])
unfolding add_batch_commands action_of
add_batch_commands-of_files_example =
    add_batch_commands-of_files as_text nested 1 lines (codes "queued" ∷ [])
