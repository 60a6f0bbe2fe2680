-- ===== src/Lib.antt =====
-- Maketool: a development beside the C program maketool, a window that runs make and shows what it
-- prints.
--
-- The program runs a build as a child process (task.c), reads its output line by line, lets the
-- output filters (filter.c) classify each line, and adds it to the log (log.c), which counts errors
-- and warnings, follows the directories that make enters, and shows the lines as a tree. A log can
-- be printed as PostScript (ps.c). util.c has the growable strings, the escaping and expansion of
-- commands, and the handling of paths and times that the other parts use; progress.c reports the
-- percentage of long operations. From task.c on up, menus and windows (main.c, preferences.c, ui.c
-- and others) are built with GTK.
--
-- What is modelled, with each function under the name that it has in C:
--   Common             lists, byte strings, tests and signed numbers over the native numbers
--   Estring            the estring functions of util.c, with the size of the heap block
--   Util.Escape        strescape, with a shell's reading of a word
--   Util.Expand        do_expands and expand_string, with an abstract syntax of templates
--   Util.Paths         file_current, file_change_current, file_normalise, file_denormalise
--   Util.Elapsed       time_elapsed and time_elapsed_str
--   Progress           progress.c
--   Ps                 ps.c: styles, pages, lines and escaped text, with readers of the output
--   Filter.Types       filter.h and the types of filter.c
--   Filter.Leads       filter_calc_leads
--   Filter.Load        filter_add, filter_set_start; Filter.Tables the calls of filter_load
--   Filter.Apply       filter_replace_matches, filter_apply_one, filter_apply
--   Filter.Checks, Filter.Index, Filter.Builds, Filter.Machine   what is proved of them
--   Log.Dirs           log_unique_dir, log_push_dir, log_pop_dir, log_clear_dirs, log_get_context
--   Log.Records        log_add_rec, log_show_rec and the stack of nodes
--   Log.Lines          log_add_line, log_update_build_start, log_start_build
--   Log.Errors         log_find_error_aux, as log_next_error and log_prev_error
--   Task.Input         task_linemode_input and what feeds it
--   Task.Queue         the queue of tasks, g_unix_add_reap_func, g_unix_dispatch_reapers; of main.c
--                      change_directory, list_targets, change_directory_start and make_reap, as far
--                      as they act on tasks
--   Log.Files          log_save, log_open and log_repopulate
--   Log.Filenames      log_get_filenames
--   Log.Apply          log_apply_after, log_set_selected
--   Find               do_find and the stack of searches; Find.Order where a search stops
--   Makes.System       ms_makefile_needs_update, ms_is_standard_target, mp_which_makefile
--   Makes.Targets      the input and reap functions of gmake.c, pmake.c and sunmake.c, filter_target
--   Preferences        the variables for make, with a shell's reading of the flags
--   Autoconf.Options   the options of a configure script, build_configure_command
--   Autoconf.Help      configure_help_input and parse_option_line
--   Autoconf.Status    parse_config_status; Autoconf.Reread its round trip with the command
--   Mqueue             mq_send, mq_receive, mq_message_event; Mqueue.Framing their round trip
--   Tests              concrete runs
--
-- A C string is the list of its bytes without the terminator; static variables are the fields of a
-- record that a function takes and returns; pointers to records and to interned names are their
-- places in the lists that hold them. A fault, such as an access out of bounds, a null pointer or
-- a failed assertion, is `none`. `int` is a natural number where the code keeps it from being
-- negative; progress.c, which multiplies, wraps around at the size of a word, a parameter.
--
-- Fuel: do_expands gets one more than the length of its text, and every call is on a shorter text;
-- filter_calc_leads gets one more than the length of the pattern, and every round moves on in it.
-- task_linemode_input, log_open and mq_message_event get one more than the length of their data,
-- and every round takes a newline or a header away. parse_config_status_line gets one more than
-- the length of the arguments, and every round takes two dashes away. task_start gets two more
-- than the length of the queue, and every round takes a task off it or is the last but one. All
-- other loops are structural. Lines are at most 1023 bytes long where the block of an estring has
-- to grow by that much at once.
--
-- Parameters are regcomp, regexec, the bound that glib computes for what a format prints, stat,
-- fork, chdir, the home directory, the clock, the translated texts, for the message queue the
-- window system, gdk_property_get and the layout of a header, and for a task that changes the
-- directory what happens in the main loop in which task_run waits. Not modelled are GTK and what
-- only calls it, the vendored gettext and tree widget (intl, lib), processes and signals, and the
-- parts of the program that are listed with their reasons in the manifest. Debugging output is
-- left out, as is what only frees memory.
pub mod Common
pub mod Estring
pub mod Util
pub mod Mqueue
pub mod Progress
pub mod Ps
pub mod Filter
pub mod Log
pub mod Task
pub mod Find
pub mod Makes
pub mod Autoconf
pub mod Preferences
pub mod Tests
