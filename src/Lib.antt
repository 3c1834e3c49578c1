-- ===== src/Lib.antt =====
-- A verification library for Barman, the backup and recovery manager for PostgreSQL.
--
-- Barman keeps a catalogue of base backups and an archive of WAL files per server. The archivers
-- queue incoming WAL files and move them to the archive; the retention policies classify the
-- backups; the backup manager deletes obsolete backups and the WAL files that none of the others
-- needs, and marks a backup as done when all of its WAL files are archived.
--
-- The files and the code that they model:
--   Xlog/Name       barman/xlog.py: the kinds of file names, `decode_segment_name`,
--                   `encode_segment_name`, `hash_dir`, `decode_hash_dir`
--   Xlog/Segments   barman/xlog.py: `generate_segment_names` and the segments of a file
--   Xlog/Lsn        barman/xlog.py: `parse_lsn`, `format_lsn`, `diff_lsn` and the conversions between
--                   a location and a file name with an offset
--   Xlog/Archive    barman/xlog.py: `check_archive_usable`
--   Xlog/History    barman/xlog.py: `decode_history_file`, on the lines of the file
--   Backup          barman/infofile.py: the fields and the properties of `BackupInfo`
--   Backup/Tree     barman/infofile.py: the trees of incremental backups
--   Retention       barman/retention_policies.py: what the policies share, and in Redundancy and
--                   Window the report of each
--   Catalog         barman/backup.py: the cache of backups, the neighbours of a backup,
--                   `should_remove_wals`, `get_timelines_to_protect`
--   Catalog/Find    barman/utils.py and barman/backup.py: the backup for a target
--   Catalog/Shortcut barman/utils.py: the names and shortcuts of backups
--   Catalog/Check   barman/backup.py: `check_backup`
--   Catalog/Removal barman/backup.py: which rows `remove_wal_before_backup` keeps, and in Whole the
--                   function with the deletion and the new xlogdb
--   Catalog/Removal/Deleting barman/backup.py: `delete_wals`, `delete_wal`
--   Catalog/Removal/Line barman/infofile.py: the lines of the xlogdb
--   Config          barman/config.py: the parsers of options, `CsvOption` and its subclasses
--   Annotations     barman/annotations.py: the annotations in files and the keep annotation
--   Catalog/Deletion barman/backup.py: `delete_backup`, `cron_retention_policy`, the delete annotation
--   Archiver        barman/wal_archiver.py: the queue and the batches of the two archivers
--   Archiver/Storing barman/wal_archiver.py: `archive_wal` over a store of files, with the failure of
--                   each of its steps
--   Hooks           barman/hooks.py: the environment of a hook, its run, and the retry loop
--   Locks           barman/lockfile.py: `LockFile` and the names of its subclasses
--   Server/Checks   barman/server.py: the strategies of the checks
--   Server/Wals     barman/server.py: the WAL files of a recovery; barman/utils.py: `parse_target_tli`
--   Server/Timelines barman/server.py: `get_children_timelines`
--   Server/Deletion barman/server.py: `delete_backup`, `perform_delete_backup`
--   Server/Sync     barman/server.py: the synchronisation of a passive node
--   Prelude, Bits, Text, Dict, Result: the numbers, texts, dictionaries and errors that these share
--   Tests           runs at small inputs
--
-- The functions keep their names. Exceptions are errors of `Result`, `None` is `none`, a dictionary is
-- an association list in the order of insertion, a loop is a recursion on the list that it runs
-- through. Where the source sorts the keys of a dictionary and reads it at each of them, the entries
-- are sorted by their key. Text is a list of code points.
--
-- Bounds and fuel. A generator is asked for its first `n` names; for an end that is given, `n` from
-- the number of segments on gives all of them. The walks of the trees take fuel: more than the depth
-- gives the same list. The loop of `should_remove_wals` has fuel above the number of backups, which is
-- enough since each round moves to an older backup. The loop of a retry hook takes fuel for
-- its runs: one more than the runs that fail is enough. So does the search for children, for its
-- history files: one more than there are is enough. Machine words do not occur: where a name holds
-- eight digits, the theorems ask for numbers below 2^32.
--
-- Parameters: the file system (which files exist), the clock, the characters that `\d` matches in a
-- backup id, the reading of a keep annotation in the policies, the parsing of a date by dateutil, the
-- outcome of `archive_wal` for a file of a batch, what a hook script does, the compressors, the errors of
-- opening a lock file, which steps of the archiving of a file or the deletion of a backup fail and what
-- a step that fails leaves, whether two files have the same `os.stat`, how the time in a row of the xlogdb is printed and
-- read, and what the primary node says and the copy does in a synchronisation.
--
-- Not modelled: the connection to PostgreSQL, external commands and the copying of files, the command
-- line and its output, the cloud providers, the compressors themselves, and logging. The Unicode
-- digits that Python's `\d` and `int` accept besides ASCII ones are left out.
pub mod Prelude
pub mod Text
pub mod Result
pub mod Xlog
pub mod Tests
pub mod Bits
pub mod Dict
pub mod Backup
pub mod Retention
pub mod Catalog
pub mod Archiver
pub mod Annotations
pub mod Hooks
pub mod Locks
pub mod Server
pub mod Config
