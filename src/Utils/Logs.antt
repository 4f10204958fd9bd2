-- ===== src/Utils/Logs.antt =====
-- utils/io.go, `logFileWriter`; utils/log.go: log files by prefix and day. A writer holds its lock for a whole
-- write; which calls of the file system fail is an argument.
pub mod Laws
use zhangyu.Base.{
  ℕ, String, Bool, true, false, Option, none, some, List, [], ◌∷◌, ◌++◌, ◌==◌, length, take, concat,
  if◌then◌else◌,
}
use zhangyu.Base.Dict
use zhangyu.Base.Strings.{join}

-- The directory of the logs: whether it exists, and its files.
pub record LogDir : Type 0 where
  pub made : Bool
  pub files : Dict.Entries (List ℕ)

-- `logFileWriter`, and `newLogFileWriter`.
pub record LogFileWriter : Type 0 where
  file_prefix : String

abbrev pub new_log_file_writer : String → LogFileWriter
new_log_file_writer prefix = record { file_prefix = prefix }

-- The errors of `MkdirAll`, `Create`, `OpenFile`, and of `Write`, with what it has written before.
pub record Failures : Type 0 where
  mkdir : Option String
  pub create : Option String
  open_file : Option String
  pub write : Option (ℕ × String)

abbrev pub no_failures : Failures
no_failures = record { mkdir = none; create = none; open_file = none; write = none }

-- The file of a day, as `2006-01-02`.
unfoldable pub log_name : LogFileWriter → String → String
log_name w day = join (if w.file_prefix == "" then "" else join w.file_prefix "-") (join day ".log")

-- The number of bytes and the error that a write gives.
abbrev Written : Type 0
Written = ℕ × Option String

-- A write at the end of a file with some content.
unfoldable pub append_to : LogDir → Failures → String → List ℕ → List ℕ → Written × LogDir
append_to dir f name old p = elim f.write [
  | none ↦ ((length p, none), record dir { files = Dict.insert name (old ++ p) dir.files })
  | some (n, message) ↦
      ((n, some message), record dir { files = Dict.insert name (old ++ take n p) dir.files })
]

unfoldable pub open_and_write : LogDir → Failures → String → List ℕ → Written × LogDir
unfolding append_to
open_and_write dir f name p = elim (Dict.lookup name dir.files) [
  | none ↦ elim f.create [
    | some message ↦ ((0, some message), dir)
    | none ↦ append_to dir f name [] p
  ]
  | some old ↦ elim f.open_file [
    | some message ↦ ((0, some message), dir)
    | none ↦ append_to dir f name old p
  ]
]

-- `Write`: a directory that is missing is made.
unfoldable pub log_write : LogFileWriter → LogDir → Failures → String → List ℕ → Written × LogDir
unfolding open_and_write log_name
log_write w dir f day p =
    if dir.made then open_and_write dir f (log_name w day) p else elim f.mkdir [
      | some message ↦ ((0, some message), dir)
      | none ↦ open_and_write (record dir { made = true }) f (log_name w day) p
    ]

-- The output that `SetLogFile` sets: the standard output gets what the file has got without an error.
abbrev pub print_after : List ℕ → List ℕ → Written × LogDir → LogDir × List ℕ
print_after stdout p ((n, none), dir) = (dir, stdout ++ p)
print_after stdout p ((n, some message), dir) = (dir, stdout)

unfoldable pub log_output :
    LogFileWriter → LogDir → List ℕ → Failures → String → List ℕ → LogDir × List ℕ
unfolding log_write
log_output w dir stdout f day p = print_after stdout p (log_write w dir f day p)

-- Messages one after the other.
unfoldable pub log_all : LogFileWriter → LogDir → List ℕ → String → List (List ℕ) → LogDir × List ℕ
unfolding log_output
log_all w dir stdout day [] = (dir, stdout)
log_all w dir stdout day (p ∷ ps) =
    let next = log_output w dir stdout no_failures day p in log_all w next.0 next.1 day ps
