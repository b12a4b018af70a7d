-- ===== src/Lib.antt =====
-- Kahuna, a waveform viewer with protocol decoders: a model of the parts of libsurfer that keep
-- its core state, with theorems about them.
--
-- Common (with Tests, Lists, Outcomes, Integers, Texts, Bits) holds what all modules share. A method that may panic or
-- fail returns an `Outcome`: a value, an error of the source's `Result`, or a panic.
--
-- Tree models libsurfer/src/displayed_item_tree.rs, the flat vector of nodes with levels. Tree.antt
-- has the types, `subtree_end` and `check_location`; Tree.Visible the iterators, the selection and
-- `valid_levels_visible`; Tree.Edit insertion, removal, draining and folding; Tree.Move `move_item`
-- and `move_items`. A method takes the vector and returns the new one beside its result. The
-- iterators and the draining loop run on fuel, the length of the vector: each round goes on by a
-- node or makes the vector shorter. Tree.Drain is about draining. The callbacks `f` are arguments.
--
-- Decoders models libsurfer/src/decoders: Decoders.antt has mod.rs's lanes, words and number formats
-- (Decoders.Lanes and Decoders.Formats are about them); Decoders.Spi, Decoders.I2c and
-- Decoders.Uart are spi.rs, i2c.rs and uart.rs. The mutable variables of a decoding loop are a record
-- (Progress, Bus, Frame), a round is `step`, and the loop is `run` on the list of edges or events,
-- so it needs no fuel. Spi.Groups is the specification of `decode_one`, Spi.Refine and Spi.Words
-- compare the two; I2c.Transactions and Uart.Frames are about what is sent on the lines. Texts are lists of
-- character codes, and u64 arithmetic wraps, as it does in a release build. The digits of a number
-- run on fuel, the number and one more, since each digit makes the number smaller.
-- Decoders.Protocols and Decoders.Roles hold the role tables, the guess of the bindings and the
-- dispatch; a decoder's lanes are indexed by its roles.
--
-- References models surfer-translation-types/src/scope_ref.rs and variable_ref.rs, and FileHistory
-- libsurfer/src/file_history.rs; what the history file on disk holds is an argument of `load`,
-- and the equality of paths one of `add`.
-- Timestamp models libsurfer/src/cxxrtl/timestamp.rs.
--
-- Analog models libsurfer/src/analog_signal_cache.rs: Analog.antt has the index (MinMax, SignalRMQ
-- with its sparse table, and the queries by index and by time), Analog.Cache the query at a time,
-- AnalogSignalCache and AnalogCacheEntry. An `f64` is of any type with the operations of the record
-- Float; a panic of an index, a slice or a division is an outcome, and the debug assertions are left out. The
-- halvings of `ilog2` run on fuel, the number itself. Analog.Table is about the sparse table,
-- Analog.Build about what is built, Analog.Ranges and Analog.Times about the queries, Analog.Queries
-- about the cache.
--
-- Commands models libsurfer/src/fzcmd.rs: Commands.antt the commands and `parse_command`,
-- Commands.Fuzzy the expansion. The captures of the regular expressions and the fuzzy matcher are
-- arguments (Regexes, Matcher). A command is a finite tree of parsers, so parsing needs no fuel.
--
-- Time models the parts of libsurfer/src/time.rs that are not drawn: Time.antt the units, the powers of
-- ten, `find_auto_scale` and `scale_time`; Time.Input `parse_time_input`, `normalize_numeric_with_unit`,
-- TimeInputState and `parse_time_string_to_ticks`; Time.Format the formats, TimeFormatter and
-- `group_n_chars` of libsurfer/src/translation/basic_translators.rs, which runs on the length of the text
-- as fuel, since a group is not empty. A `BigInt` is a number: negative times are not modelled. A multiplier of 0,
-- whose logarithm panics, makes a panic of what counts its zeros. The
-- locale, the reading of decimal digits and the text of a floating-point number are arguments.
--
-- Translators models the bit-vector translators of libsurfer/src/translation/basic_translators.rs, and what
-- they use of surfer-translation-types/src/lib.rs and translator.rs: Translators.antt the values, their
-- kinds and `map_to_radix`, Translators.Basic the translators. A `BigUint` is a number, and its reading and its
-- bytes are arguments. Translators.FixedPoint models libsurfer/src/translation/fixed_point.rs, with the rounds
-- of its loop as fuel; Translators.FixedPoint.Exact is about the value of the texts.
--
-- Fields models the fields of compound values: the types of surfer-translation-types/src/result.rs, and
-- `format`, `sub_format`, `format_flat`, `get_subinfo` and `has_subpath` of libsurfer/src/translation/mod.rs;
-- Fields.Rows is about the rows of a value, Fields.Subinfo about the lookup of a field. A basic translator is
-- a function.
--
-- Names models the names of variables for display: the map of minimal names of
-- libsurfer/src/variable_name_type.rs, and `full_path_string` of libsurfer/src/wave_container.rs. Names.Order is about
-- the order of scopes, Names.Prefixes about what scopes in order share, Names.Sorted about the sorted entries,
-- Names.Needs about the components that are taken, Names.Labels about the texts, and Names.Unique about a group. The
-- groups of the hash map are in the order in which they are made, and the map is what is put into it, in order.
--
-- Util models the letters of an index and the extension of a file name in libsurfer/src/util.rs; the
-- logarithm runs on fuel, the number itself.
--
-- Batch models the lines of batch commands in libsurfer/src/batch_commands.rs; Batch.Order is about
-- the order of their messages. Nested files are read on fuel, their depth. What a file holds and
-- what the parser makes of a command are arguments.
--
-- Waves models the displayed items: Waves.antt the items of libsurfer/src/displayed_item.rs and the part of
-- libsurfer/src/wave_data.rs's WaveData that holds them, Waves.Edit the methods that insert and remove them,
-- Waves.Rows what changes one item, and the rows of a decoder; Waves.State the canvas states of
-- libsurfer/src/state.rs with Undo and Redo, Waves.Messages and Waves.Message a part of the
-- messages of `SystemState::update` in libsurfer/src/lib.rs: those that add dividers and time lines, focus, select,
-- recolour, rename, remove, dissolve and fold items, remove placeholders, configure decoders, undo and redo. The other messages that change
-- displayed items (among them GroupNew, MoveFocusedItem, DecoderAdd, AddVariables, AddScope and dragging) are not
-- modelled. The hash map of items is an
-- association list; types of the waveform back end and of the drawing code are fields of the record Parts.
-- Waves.Refs, Consistent, Insert, Sound, Marks, Insertion, Groups, Placeholders, Changes and Invariant are about the
-- invariant that ties the tree to the items, Waves.History and Waves.Stacks about Undo and Redo.
--
-- Not modelled: the drawing code, the waveform back ends, the servers, the other translators and the configuration;
-- they are calls of egui, of the wellen library, of sockets and of serde.
mod Common
pub mod Tree
pub mod Decoders
pub mod References
pub mod FileHistory
pub mod Timestamp
pub mod Analog
pub mod Commands
pub mod Time
pub mod Translators
pub mod Util
pub mod Batch
pub mod Waves
pub mod Fields
pub mod Names
