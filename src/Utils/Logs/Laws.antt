-- ===== src/Utils/Logs/Laws.antt =====
-- utils/io.go, utils/log.go: what the log files hold.
use mathlib.Core.List.{append_assoc, append-nil}
use zhangyu.Base.{
  ℕ, String, ◌≡◌, ◌≢◌, refl, sym, ap, ◌∙◌, true, Option, none, some, List, [], ◌∷◌, ◌++◌, length,
  concat, Bool-cases, Option-cases, inl, inr, eq_refl, eq_false,
}
use zhangyu.Base.Dict
use zhangyu.Base.Dict.{lookup-insert}
use zhangyu.Utils.Logs.{
  LogDir, LogFileWriter, no_failures, log_name, append_to, open_and_write, log_write, print_after,
  log_output, log_all,
}

abbrev content_of : Option (List ℕ) → List ℕ
content_of none = []
content_of (some old) = old

-- What a file holds; nothing where it is missing.
unfoldable pub content : LogDir → String → List ℕ
content dir name = content_of (Dict.lookup name dir.files)

abbrev appended : LogDir → String → List ℕ → LogDir
appended dir name p = record {
  made = true;
  files = Dict.insert name (content dir name ++ p) dir.files;
}

open-appends :
    (dir : LogDir) (name : String) (p : List ℕ)
    → open_and_write (record dir { made = true }) no_failures name p
      ≡ ((length p, none), appended dir name p)
unfolding open_and_write append_to content
open-appends dir name p = elim (Option-cases (Dict.lookup name dir.files)) [
  | inl absent ↦ rw (absent, open_and_write) refl
  | inr (old, found) ↦ rw (found, open_and_write) refl
]

write-appends :
    (w : LogFileWriter) (dir : LogDir) (day : String) (p : List ℕ)
    → log_write w dir no_failures day p ≡ ((length p, none), appended dir (log_name w day) p)
unfolding log_write content
write-appends w dir day p = elim (Bool-cases dir.made) [
  | inl made ↦ rw made (open-appends dir (log_name w day) p)
  | inr unmade ↦ rw unmade (open-appends dir (log_name w day) p)
]

output-appends :
    (w : LogFileWriter) (dir : LogDir) (stdout : List ℕ) (day : String) (p : List ℕ)
    → log_output w dir stdout no_failures day p ≡ (appended dir (log_name w day) p, stdout ++ p)
unfolding log_output
output-appends w dir stdout day p = ap (print_after stdout p) (write-appends w dir day p)

content-appended :
    (dir : LogDir) (name : String) (p : List ℕ)
    → content (appended dir name p) name ≡ content dir name ++ p
unfolding content
content-appended dir name p =
    ap content_of {y = some (content dir name ++ p)}
      (lookup-insert name name (content dir name ++ p) dir.files ∙ rw (eq_refl name) refl)

content-other :
    (dir : LogDir) (name other : String) (p : List ℕ)
    → name ≢ other
    → content (appended dir name p) other ≡ content dir other
unfolding content
content-other dir name other p ne =
    ap content_of {y = Dict.lookup other dir.files} (
      lookup-insert name other (content dir name ++ p) dir.files ∙ rw (eq_false name other ne) refl)

log_all-cons :
    (w : LogFileWriter) (dir : LogDir) (stdout : List ℕ) (day : String) (p : List ℕ)
    (ps : List (List ℕ))
    → log_all w dir stdout day (p ∷ ps)
      ≡ log_all w (appended dir (log_name w day) p) (stdout ++ p) day ps
unfolding log_all
log_all-cons w dir stdout day p ps =
    ap (λ (next : LogDir × List ℕ). log_all w next.0 next.1 day ps)
      (output-appends w dir stdout day p)

-- Messages that are logged on a day, on calls of the file system that do not fail, stand in their
-- order at the end of the day's file, behind what it held before, and at the end of the standard
-- output; every other file holds what it held.
pub log_all-content :
    (w : LogFileWriter) (dir : LogDir) (stdout : List ℕ) (day other : String) (ps : List (List ℕ))
    → log_name w day ≢ other
    → (content (log_all w dir stdout day ps).0 (log_name w day)
        ≡ content dir (log_name w day) ++ concat ps)
      × ((log_all w dir stdout day ps).1 ≡ stdout ++ concat ps)
      × (content (log_all w dir stdout day ps).0 other ≡ content dir other)
unfolding log_all
log_all-content w dir stdout day other [] ne = (sym (append-nil _), sym (append-nil _), refl)
log_all-content w dir stdout day other (p ∷ ps) ne =
    let name = log_name w day in
    let (here, printed, kept) =
      log_all-content w (appended dir name p) (stdout ++ p) day other ps ne in
    rw (log_all-cons w dir stdout day p ps) (
      here ∙ rw (content-appended dir name p) (append_assoc (content dir name) p (concat ps)),
      printed ∙ append_assoc stdout p (concat ps),
      kept ∙ content-other dir name other p ne,
    )
