-- ===== src/Lib.antt =====
-- simlib, the utility library of the sim judging system: strings and their encodings, numbers as
-- text, delimited texts, request URIs, configuration files and queues between threads, on which
-- problem packages and judging stand.
--
-- How the parts interact. A view (include/simlib/string_view.hh) is a pointer and a length into a
-- buffer that others own. Everything that reads text takes a view and moves its ends: SimpleParser
-- (include/simlib/simple_parser.hh), RequestUriParser (include/simlib/request_uri_parser.hh) and
-- ConfigFile (src/config_file.cc, include/simlib/config_file.hh). The character classes
-- (include/simlib/ctype.hh), the tests on strings (include/simlib/string_traits.hh), the encodings
-- and str2num (include/simlib/string_transform.hh), to_string (include/simlib/to_string.hh) and
-- the comparisons (include/simlib/string_compare.hh) are functions of the bytes a view shows.
--
-- Which file models which part. A module has the name of the header it models, and its child
-- modules are named for its parts and for what they prove.
-- - Common: native numbers, tests, lists and bytes, and the lemmas that all share.
-- - Ctype: the character classes, to_lower and to_upper.
-- - StringView: the operations on pointer and length (StringView) and, on the bytes that a view
--   shows, searching, cutting and comparing (StringView.Text). StringView.Refines says when a view
--   shows a string, which is how the two levels meet in StringView.Parts.
--   StringView.Kmp is find of a string with its table of borders.
-- - StringTraits, StringTransform, StringCompare: the functions of those headers by their names;
--   the overloads of one name on strings have the suffix _str (is_digit_str).
-- - Number: to_string and str2num of an integer type, which is given by its greatest value.
-- - SimpleParser, RequestUriParser: the state is the text that is left, which each operation
--   returns.
-- - ConfigFile: Variable and the map of the variables; ConfigFile.Value is extract_value with a
--   mode for each place of its loops; ConfigFile.Load is load_config_from_string, its loop body in
--   the order of the source; ConfigFile.Escape is the writers and ConfigFile.Diagnostics the line,
--   column and excerpt of an error. An exception ParseError is its reason together with the text
--   left at its place and the variables as they are then.
-- - Concurrent: Semaphore as its value and BoundedQueue (include/simlib/concurrent/semaphore.hh,
--   bounded_queue.hh). Concurrent.Clients is the steps that any number of threads take at one
--   queue, and Concurrent.Workers those of JobProcessor
--   (include/simlib/concurrent/job_processor.hh).
-- - Path (src/path.cc, include/simlib/path.hh): the loop of path_absolute has the length of the
--   path as fuel, as each turn takes a character of it; Path.Absolute is its description by a
--   stack.
-- - Time (include/simlib/time.hh): the texts of a timespec, a timeval and a duration. `prec` is cast
--   to int there, which is below 0 from 2^31 on.
-- - Simfile (src/sim/simfile.cc, include/simlib/sim/simfile.hh): a std::runtime_error is a value
--   of Error. Simfile.Groups is load_tests, whose std::map is a list in the order of its keys, and
--   Simfile.Files is load_tests_files, validate_files and parts of dump.
-- - Package (src/sim/problem_package.cc, include/simlib/sim/problem_package.hh): PackageContents is
--   the buffer with the spans of its entries; Package.Set is std::set as it is used there, a list
--   in the order of the entries' texts. An archive is the list of its entries' names, a directory
--   the tree of what for_each_dir_component meets.
-- - Conver (src/sim/conver.cc): construct_simfile from the tests on, one definition for each part
--   of its body. A part that throws has a Result; an assertion, a division by zero or the value of
--   an optional without one is none. Conver.Loaded is the items of `tests_files` that throw so.
--   Conver.Scores is the groups of the tests with their scores and their export, Conver.Limits the
--   time limits and their reset; what is computed in floating point is a parameter there.
-- - Checker (src/sim/checker.cc, src/sim/judge_worker.cc): the output of a checker over the results
--   of pread, and the verdict on it.
-- - Rounds (src/sim/judge_worker.cc): the rounds of process_tests, with the state of the world passed
--   on; the judging of one test and the arithmetic on ratios are a parameter.
-- - EventQueue (src/event_queue.cc, include/simlib/event_queue.hh): the tables and the operations;
--   EventQueue.Table is the containers as they are used there. EventQueue.Steps is run: a step is a
--   call that some handler makes, a turn of process_timed_handlers, a part of the loop body of
--   process_file_events, or ppoll. A handler, the kernel and the clock may do anything.
--
-- Threads. A step is one wait at a semaphore or one section under the mutex, whose posts come last
-- in it, so that no other thread tells it from one step. Threads that are alike are counted.
--
-- Numbers and bytes. A byte is a number below 256, as unsigned char; the classes and comparisons
-- give the same for the signed char of the source, since no class holds of a byte from 128 on and
-- char_traits compares unsigned. A position that does not exist (npos) is none.
--
-- Loops and fuel. Loops over text are recursion on the text. Two loops of load_config_from_string,
-- over the lines and over an array's elements, have fuel: the length of the text, which is enough
-- since each turn takes a character at least. The loop of find that falls back through the table
-- takes k rounds at most. to_string and is_power_of_10 have the number itself as fuel. Where the
-- source would read past its buffer or move an index below 0 the model is in a fault of its own.
--
-- Not modelled: system calls and what wraps them (sandbox, processes, files, temporary files,
-- inotify, archives), the database client, logging, hashing and random numbers; floating-point
-- str2num, which is strtod; stod and the rounding of a time limit, which are a parameter of
-- Simfile.Groups; which files exist, a parameter too. Nor are what judges one test in the sandbox,
-- the automaton of several strings, the arithmetic and the parsing of times and the JSON builder; of
-- conver, the choice of the checker, the statement and the solutions, the name, the label, the
-- checks of the options and the report.
pub mod Common
pub mod Ctype
pub mod StringView
pub mod StringTraits
pub mod StringTransform
pub mod Number
pub mod StringCompare
pub mod SimpleParser
pub mod RequestUriParser
pub mod ConfigFile
pub mod Path
pub mod Package
pub mod EventQueue
pub mod Simfile
pub mod Conver
pub mod Concurrent
pub mod Tests
pub mod Time
pub mod Checker
pub mod Rounds
