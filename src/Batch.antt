-- ===== src/Batch.antt =====
-- libsurfer/src/batch_commands.rs: the queue of batch messages, and how command files are put into
-- it. What a file holds and what the parser makes of a command are arguments. The flag
-- `batch_messages_completed` is left out.
mod Tests
pub mod Order
use kahuna.Common.{
  ℕ, zero, suc, Bool, true, false, List, [], ◌∷◌, ◌++◌, map, Option, none, some, ◌==◌,
  if◌then◌else◌, Outcome, ok, panic, ◌>>=◌, is_empty, trim,
}
use kahuna.Decoders.{Text, codes}
use kahuna.Analog.{Checked}

-- `line.split('#').next()`
abbrev pub before_hash : Text → Text
before_hash [] = []
before_hash (c ∷ cs) = let more = c ∷ before_hash cs in if c == 35 then [] else more

abbrev pub onto_first : ℕ → List Text → List Text
onto_first c [] = (c ∷ []) ∷ []
onto_first c (part ∷ parts) = (c ∷ part) ∷ parts

abbrev pub split_semicolons : Text → List Text
split_semicolons [] = [] ∷ []
split_semicolons (c ∷ cs) =
    let parts = split_semicolons cs in if c == 59 then [] ∷ parts else onto_first c parts

-- The commands of the lines, without comments and empty lines
abbrev pub commands_of : List Text → List Text
commands_of [] = []
commands_of (line ∷ lines) =
    let rest = commands_of lines in
    let text = before_hash (trim line) in
    if is_empty text then rest else map trim (split_semicolons text) ++ rest

abbrev pub strip_prefix : Text → Text → Option Text
strip_prefix [] cs = some cs
strip_prefix (p ∷ ps) [] = none
strip_prefix (p ∷ ps) (c ∷ cs) = let rest = strip_prefix ps cs in if c == p then rest else none

abbrev pub without_quotes : Text → Text
without_quotes [] = []
without_quotes (c ∷ cs) = let rest = without_quotes cs in if c == 34 then rest else c ∷ cs

abbrev pub drop_last_quotes : Text → Text
drop_last_quotes [] = []
drop_last_quotes (c ∷ cs) =
    let rest = drop_last_quotes cs in
    if is_empty rest then (if c == 34 then [] else c ∷ []) else c ∷ rest

-- What is done with a command
pub data Action (M : Type 0) : Type 0 where
  load_file : Text → Action M
  message : M → Action M
  nothing : Action M

module _ {M : Type 0} (parse : Text → Option M) where
  abbrev pub parsed : Option M → Action M
  parsed none = nothing
  parsed (some m) = message m

  abbrev pub loaded : Text → Action M
  loaded path = if is_empty path then nothing else load_file path

  abbrev pub action_or : Text → Option Text → Action M
  action_or command none = parsed (parse command)
  action_or command (some path) = loaded (drop_last_quotes (without_quotes (trim path)))

  unfoldable pub action_of : Text → Action M
  action_of command = action_or command (strip_prefix (codes "run_command_file ") command)

  -- The queue that `load` leaves, and the messages of the commands
  unfoldable pub collect :
      (Text → List M → Checked (List M)) → List (Action M) → List M → Checked (List M × List M)
  collect load [] queue = ok (queue, [])
  collect load (load_file path ∷ actions) queue = do
    longer ← load path queue
    collect load actions longer
  collect load (message m ∷ actions) queue = do r ← collect load actions queue; ok (r.0, m ∷ r.1)
  collect load (nothing ∷ actions) queue = collect load actions queue

module _ {M : Type 0} (parse : Text → Option M) (read_command_file : Text → List Text) where
  -- Files within files are read on fuel; a file that loads itself overflows the stack.
  unfoldable pub add_batch_commands : ℕ → List Text → List M → Checked (List M)
  unfolding collect action_of
  add_batch_commands zero lines queue = panic
  add_batch_commands (suc depth) lines queue = do
    r ←
        collect parse (λ path. add_batch_commands depth (read_command_file path))
          (map (action_of parse) (commands_of lines)) queue
    ok (r.0 ++ r.1)
