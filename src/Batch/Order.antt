-- ===== src/Batch/Order.antt =====
-- The order of the messages that the lines of a command file put into the queue.
use kahuna.Common.{
  ℕ, zero, suc, ◌≡◌, refl, sym, ap, ◌∙◌, List, [], ◌∷◌, ◌++◌, append-nil, append_assoc, map, Option,
  ok, err, panic, ◌>>=◌,
}
use kahuna.Decoders.{Text}
use kahuna.Analog.{Checked}
use kahuna.Batch.{
  Action, load_file, message, nothing, commands_of, action_of, collect, add_batch_commands,
}

module _ {M : Type 0} where
  -- The messages of the commands themselves
  abbrev pub direct : List (Action M) → List M
  direct [] = []
  direct (load_file path ∷ actions) = direct actions
  direct (message m ∷ actions) = m ∷ direct actions
  direct (nothing ∷ actions) = direct actions

  -- The messages of the files that are loaded, one file behind the other
  abbrev pub of_files : (Text → Checked (List M)) → List (Action M) → Checked (List M)
  of_files file [] = ok []
  of_files file (load_file path ∷ actions) = do
    messages ← file path
    rest ← of_files file actions
    ok (messages ++ rest)
  of_files file (message m ∷ actions) = of_files file actions
  of_files file (nothing ∷ actions) = of_files file actions

  -- A file adds its messages behind a queue, whatever the queue is.
  abbrev Adds : (Text → List M → Checked (List M)) → Type 0
  Adds load =
      (path : Text) (queue : List M)
      → load path queue ≡ (load path [] >>= λ added. ok (queue ++ added))

module _ {M : Type 0} where
  abbrev queued : List M → List M → List M → Checked (List M × List M)
  queued queue ones rest = ok (queue ++ rest, ones)

  abbrev with_message : M → List M × List M → Checked (List M × List M)
  with_message m r = ok (r.0, m ∷ r.1)

  abbrev in_one_queue : List M × List M → Checked (List M)
  in_one_queue r = ok (r.0 ++ r.1)

  abbrev behind : List M → List M → Checked (List M)
  behind queue l = ok (queue ++ l)

  joined_messages :
      (queue added ones : List M) (files : Checked (List M))
      → (files >>= queued (queue ++ added) ones) ≡ ((files >>= behind added) >>= queued queue ones)
  joined_messages queue added ones (ok rest) =
      ap (λ l. ok (l, ones)) (append_assoc queue added rest)
  joined_messages queue added ones (err e) = refl
  joined_messages queue added ones panic = refl

  after_file :
      (next : List M → Checked (List M × List M)) (queue ones : List M)
      (files added : Checked (List M))
      → ((longer : List M) → next longer ≡ (files >>= queued longer ones))
      → ((added >>= behind queue) >>= next)
        ≡ ((added >>= λ l. files >>= behind l) >>= queued queue ones)
  after_file next queue ones files (ok l) each =
      each (queue ++ l) ∙ joined_messages queue l ones files
  after_file next queue ones files (err e) each = refl
  after_file next queue ones files panic each = refl

  after_message :
      (m : M) (queue ones : List M) (files : Checked (List M))
      → ((files >>= queued queue ones) >>= with_message m) ≡ (files >>= queued queue (m ∷ ones))
  after_message m queue ones (ok rest) = refl
  after_message m queue ones (err e) = refl
  after_message m queue ones panic = refl

  queued-in_one_queue :
      (queue ones : List M) (files : Checked (List M))
      → ((files >>= queued queue ones) >>= in_one_queue)
        ≡ (files >>= λ rest. behind queue (rest ++ ones))
  queued-in_one_queue queue ones (ok rest) = ap ok (append_assoc queue rest ones)
  queued-in_one_queue queue ones (err e) = refl
  queued-in_one_queue queue ones panic = refl

  behind_both :
      (queue ones : List M) (files : Checked (List M))
      → (files >>= λ rest. behind queue (rest ++ ones))
        ≡ ((files >>= λ rest. behind rest ones) >>= behind queue)
  behind_both queue ones (ok rest) = refl
  behind_both queue ones (err e) = refl
  behind_both queue ones panic = refl

module _ {M : Type 0} (parse : Text → Option M) where
  collect_lem :
      (load : Text → List M → Checked (List M)) (actions : List (Action M)) (queue : List M)
      → Adds load
      → collect parse load actions queue
        ≡ (of_files (λ path. load path []) actions >>= queued queue (direct actions))
  unfolding collect
  collect_lem load [] queue adds = ap (λ q. ok (q, [])) (sym (append-nil queue))
  collect_lem load (load_file path ∷ actions) queue adds =
      ap (λ o. o >>= collect parse load actions) (adds path queue)
      ∙ after_file (collect parse load actions) queue (direct actions)
          (of_files (λ p. load p []) actions) (load path [])
          (λ longer. collect_lem load actions longer adds)
  collect_lem load (message m ∷ actions) queue adds =
      ap (λ o. o >>= with_message m) (collect_lem load actions queue adds)
      ∙ after_message m queue (direct actions) (of_files (λ p. load p []) actions)
  collect_lem load (nothing ∷ actions) queue adds = collect_lem load actions queue adds

module _ {M : Type 0} (parse : Text → Option M) (read_command_file : Text → List Text) where
  abbrev load_at : ℕ → Text → List M → Checked (List M)
  load_at depth path = add_batch_commands parse read_command_file depth (read_command_file path)

  abbrev pub file_messages : ℕ → Text → Checked (List M)
  file_messages depth path = load_at depth path []

  abbrev pub actions_of : List Text → List (Action M)
  actions_of lines = map (action_of parse) (commands_of lines)

  in_order :
      (depth : ℕ) (lines : List Text) (queue : List M)
      → Adds (load_at depth)
      → add_batch_commands parse read_command_file (suc depth) lines queue ≡ (
          of_files (file_messages depth) (actions_of lines) >>= λ files.
          ok (queue ++ (files ++ direct (actions_of lines))))
  unfolding add_batch_commands
  in_order depth lines queue adds =
      ap (λ o. o >>= in_one_queue) (collect_lem parse (load_at depth) (actions_of lines) queue adds)
      ∙ queued-in_one_queue queue (direct (actions_of lines))
          (of_files (file_messages depth) (actions_of lines))

  load_at-Adds : (depth : ℕ) → Adds (load_at depth)
  unfolding add_batch_commands
  load_at-Adds zero path queue = refl
  load_at-Adds (suc depth) path queue =
      in_order depth (read_command_file path) queue (load_at-Adds depth)
      ∙ behind_both queue (direct (actions_of (read_command_file path)))
          (of_files (file_messages depth) (actions_of (read_command_file path)))
      ∙ ap (λ o. o >>= behind queue)
          (sym (in_order depth (read_command_file path) [] (load_at-Adds depth)))

  -- The messages of lines go behind the queue: first those of all the files that the lines load,
  -- one file behind the other, then those of the lines themselves. It panics where a file does, on
  -- fuel for one nested file less.
  pub add_batch_commands-of_files :
      (depth : ℕ) (lines : List Text) (queue : List M)
      → add_batch_commands parse read_command_file (suc depth) lines queue ≡ (
          of_files (file_messages depth) (actions_of lines) >>= λ files.
          ok (queue ++ (files ++ direct (actions_of lines))))
  add_batch_commands-of_files depth lines queue = in_order depth lines queue (load_at-Adds depth)
