-- ===== src/Server/Timelines.antt =====
-- The timelines that fork from a timeline (server.py: `get_children_timelines`).
--
-- The files of the archive are a parameter: the decompressed lines of the file at a path, if there is
-- one. The loop runs on fuel, which each history file takes one of.
pub mod Children
use barman.Prelude.{
  ℕ, zero, suc, ◌+◌, Bool, true, false, ◌&&◌, not, Option, none, some, List, [], ◌∷◌, ◌++◌, ◌==◌,
  if◌then◌else◌,
}
use barman.Prelude.Int.{ℤ, pos, negsuc, ltb_ℤ}
use barman.Text.{Text}
use barman.Result.{Result, ok, err, ◌>>=◌}
use barman.Xlog.Name.{encode_history_file_name}
use barman.Xlog.Lsn.{parse_lsn}
use barman.Xlog.History.{HistoryFileData, decode_history_file}
use barman.Locks.{join}

abbrev pub Histories : Type 0
Histories = List HistoryFileData

-- `tinfo.parent_tli == tli`
abbrev pub is_tli : ℤ → ℕ → Bool
is_tli (pos n) tli = n == tli
is_tli (negsuc n) tli = false

-- `forked_after and tinfo.switchpoint < forked_after`, where 0 is false
abbrev pub is_forked_before : Option ℤ → ℤ → Bool
is_forked_before none switchpoint = false
is_forked_before (some (pos zero)) switchpoint = false
is_forked_before (some (pos (suc n))) switchpoint = ltb_ℤ switchpoint (pos (suc n))
is_forked_before (some (negsuc n)) switchpoint = ltb_ℤ switchpoint (negsuc n)

unfoldable pub is_child : ℕ → Option ℤ → HistoryFileData → Bool
is_child tli forked_after tinfo =
    is_tli tinfo.parent_tli tli && not (is_forked_before forked_after tinfo.switchpoint)

-- The lines of one history file that are kept
unfoldable pub children_in : ℕ → Option ℤ → Histories → Histories
children_in tli forked_after [] = []
children_in tli forked_after (tinfo ∷ history_info) =
    let rest = children_in tli forked_after history_info in
    if is_child tli forked_after tinfo then tinfo ∷ rest else rest

-- `children.append`, for the lines of a file and what the later files give
abbrev pub append_all : Histories → Option (Result Histories) → Option (Result Histories)
append_all children none = none
append_all children (some (err e)) = some (err e)
append_all children (some (ok later)) = some (ok (children ++ later))

-- What the file after `children_tli` gives, with the files that follow it; `none` without fuel
unfoldable pub search_children :
    (Text → Option (List Text)) → Text → ℕ → Option ℤ → ℕ → ℕ → Option (Result Histories)
search_children read wals_directory tli forked_after zero children_tli = none
search_children read wals_directory tli forked_after (suc fuel) children_tli =
    let name = encode_history_file_name (children_tli + 1) in
    let history_path = join wals_directory name in
    elim (read history_path) [
      | none ↦ some (ok [])
      | some fp ↦ elim (decode_history_file history_path name fp) [
        | err e ↦ some (err e)
        | ok history_info ↦
            append_all (children_in tli forked_after history_info)
              (search_children read wals_directory tli forked_after fuel (children_tli + 1))
      ]
    ]

-- An empty text is no location.
abbrev pub parse_forked_after : Option Text → Result (Option ℤ)
parse_forked_after none = ok none
parse_forked_after (some []) = ok none
parse_forked_after (some (c ∷ s)) = parse_lsn (c ∷ s) >>= λ lsn. ok (some lsn)

unfoldable pub get_children_timelines :
    (Text → Option (List Text)) → Text → ℕ → ℕ → Option Text → Option (Result Histories)
get_children_timelines read wals_directory fuel tli forked_after =
    elim (parse_forked_after forked_after) [
      | err e ↦ some (err e)
      | ok lsn ↦ search_children read wals_directory tli lsn fuel tli
    ]
