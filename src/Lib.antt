-- ===== src/Lib.antt =====
-- Models of the parts of ppc64-diag that decide what happens to a platform error log and to a fault
-- of an enclosure, with the theorems about them.
--
-- The parts and how they interact. The firmware leaves error logs in sysfs. The daemon opal_errd
-- reads each log, classifies it, stores it in a directory under a name that ends in its type, asks
-- the firmware to forget it, and rotates the files of a type. The command opal-elog-parse takes a
-- stored log apart: a loop reads section after section, each with a parser of its own, and collects
-- the sections in an array that other functions search. The enclosure diagnostics read the status
-- page of a disk enclosure and report the elements whose status got worse. The command
-- opal-dump-parse takes a log out of a dump of the platform. The daemon rtas_errd handles
-- environmental and power warnings, for which it writes a status file, runs a timer and starts the
-- shutdown script, and it analyses the logs of the firmware for the number and the parts to report.
-- The light path diagnostics switch on the fault indicators of the parts that an event of the
-- service log names, and off again when the event is closed.
--
-- Base, Base/Tests, Base/Lists: names, Boolean tests and list functions that the others share.
--
-- Common: common/platform.c. Common/Platform: get_platform on the lines of /proc/cpuinfo, and
--   get_processor on the version of the processor. Scanning that version is not modelled.
--
-- Elog: opal_errd/opal-elog-parse.
--   Elog/Memory: the memory that is parsed, and how a parser ends: with a value, with an error that
--     it returns, or with a fault, which is an access outside an object or a use of an unset value.
--     A pointer is an offset into the log; `buflen` is an argument, as in the source.
--   Elog/Header: parse_helpers.c, opal-datetime.c, opal-v6-hdr.c, opal-mtms-struct.h and
--     opal-esel-parse.c. Elog/Header/RoundTrip has the encoders that they invert.
--   Elog/Section and its children: the parsers of the section types, opal-*-scn.c, each a function
--     of the same name. Safety and Faults say when their accesses stay inside.
--   Elog/Fru, Elog/Src: opal-src-fru-scn.c and opal-src-scn.c, the only sections that nest.
--   Elog/EventLog: opal-event-log.c, the array of parsed sections, in which an entry that malloc
--     returned and nobody wrote is apart from a null one.
--   Elog/Table: the table HEADER_ORDER of libopalevents.h and what the parser does with it.
--   Elog/Parse: parse_opal_event_log of parse-opal-event.c. ParseState holds its local variables,
--     parse_turn is one round of its loop, parse_loop the loop on fuel. 257 rounds are enough,
--     since a round that does not return to the same section counts one of at most 255 sections.
--   Elog/Command: opal-elog-parse.c, the logs that the command gives to parse_opal_event, up to one
--     for which that does not return, and their summaries.
--
-- Errd: opal_errd/opal_errd.c. What the kernel answers is data: the bytes of each log, how far
--   storing it gets, the order that scandir returns, and which removals succeed. Errd/Files: names,
--   suffixes and directories. Errd/Classify: parse_log and get_elog_type_from_file_data.
--   Errd/Rotate: rotate_logs. Errd/Rename: rename_old_logs. Errd/Process: process_elog,
--   find_and_read_elog_events, and the limits and the round of main. Errd/Dump: remove_dump_files
--   of opal_errd/extract_opal_dump.c. Errd/Dump/Processing: process_dump, whose loop over read is a
--   function of the results of read; without a further result it answers that it still reads. A
--   file is known by its name in the output directory: a name with a '/', or a path that snprintf
--   cuts, is not modelled, and theorems say where it matters.
--
-- Diags: diags/encl_common.c. Diags/Status: the status codes, their composite and the comparison
--   with the page of the previous run.
--
-- Rtas: rtas_errd. Rtas/Epow: epow.c and update_epow_status_file of files.c. State has the variable
--   `time_remaining`, whether the interval timer runs, the bytes of the status file and a count of
--   the starts of the script. The codes of librtasevent are a parameter, the record Codes; the
--   sensor and the results of fork and write are arguments. Rtas/Epow/Timer has the steps of the
--   daemon, among them an event that a signal of the timer interrupts. Rtas/Config: the tokenizer
--   and the values of config.c; Rtas/Config/Entries: its entries and default settings. The
--   tokenizer is on a fuel above the length of the rest of the file, which is enough. A use of an
--   unset token, a write over an array and an end of the fuel are answers of their own.
--
-- Rtas/Ela: rtas_errd/ela.c, the analysis of logs before version 6, from process_pre_v6 on.
--   Rtas/Ela/State has the entry for servicelog that is filled, the static variables of
--   get_loc_code and the global variables, among them the arrays of descriptions: an array is a
--   constructor of Table, and `arrays` says what it holds. A description is changed in place, as in
--   the source. A double free, a null pointer and a write over an array end a run (Crash).
--   Rtas/Ela/Tables: dchrp_frus.h, each array that is named. Rtas/Ela/Description: fru_prev6.h and
--   the FRUs. Rtas/Ela/Message: the messages of ela_msg.h by name. Rtas/Ela/Registers and
--   Rtas/Ela/Locations: the registers behind the tag of the log, and its locations one by one.
--   Rtas/Ela/Report: report_srn, report_menugoal and the callouts. Rtas/Ela/Refcodes:
--   process_refcodes. Rtas/Ela/Symptom: the tables of convert_symptom. Rtas/Ela/Sensor,
--   Rtas/Ela/Warnings, Rtas/Ela/Version3: the warnings of each version. Rtas/Ela/IoBus,
--   Rtas/Ela/CpuFrus: two analyses by location. Rtas/Ela/Actions: the switch of process_pre_v6,
--   each case with the action that it takes, and Rtas/Ela/PreV6 what an action does.
--   Rtas/Ela/PartNumber: diag_get_fru_pn of diag_support.c; the analysis takes it as the parameter
--   `fru_pn`. Numbers are read from the log as on a big endian processor with an unsigned char. The
--   loop over the registers is on the length of the log, and the loops over the locations on the
--   length of what is left of them; each round takes a byte or more. How each call of get_dt_status
--   ends is given: it returns no status. The number of locations that callers give to report_srn is
--   0 everywhere. The fields of an event that nothing sets are taken as 0.
--
-- Lpd: lpd. Lpd/Location: indicator.c and get_fru_indicator of lp_diag.c, the way from a location
--   to the nearest indicator; its jumps are on fuel, and a fuel above the length of the location is
--   enough, since each jump shortens it. Lpd/Supported: lp_util.c and service_event_supported.
--   Lpd/Indicators: the hooks of `struct platform` as an interface, Platform, and the functions
--   that use it; Lpd/Indicators/Reliable has the laws of indicators, IsReliable, and IsSettable
--   says which ones can be set. Lpd/Indicators/Rtas has the hooks of indicator_rtas.c,
--   rtas_platform; librtas and the hooks for enclosures of indicator_ses.c are its parameters.
--   Lpd/Indicators/Documented shows the laws for rtas_platform from what librtas documents,
--   IsDocumented. Lpd/Event: parse_service_event. Lpd/Repair: parse_repair_event. A null pointer
--   for the attention indicator is the answer none; by the theorems it does not come with a list
--   that has one.
--
-- DumpParse: opal-dump-parse/opal-dump-parse.c. DumpParse/Reading: results and reads of the mapped
--   file. DumpParse: the section directory, the dump header and the two tables of contents.
--   DumpParse/Extract: the list of sections, and what is written to a file. The loops over the
--   directory and over the nodes may not end, so they are on fuel and say so; a directory of n
--   entries takes fuel n.
--
-- The library functions that the code calls for data (be16toh and its kin, memcpy, strlen, strncpy,
-- strcmp, strstr) are written out. Not modelled: what is printed or logged, memory that is freed,
-- option parsing, udev and inotify, curses, the fork of extract_opal_dump; and of the repository
-- the indicators of OPAL, of SES enclosures and of Marvell, the diagnostics of single enclosures,
-- disks and NVMe drives, the logs of version 6, guarding, dumps and reconfiguration in rtas_errd,
-- the text of its messages, the analysis of syslog messages, scripts and tests.
pub mod Base
pub mod Common
pub mod Elog
pub mod Errd
pub mod Rtas
pub mod Lpd
pub mod DumpParse
pub mod Diags
