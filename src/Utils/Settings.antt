-- ===== src/Utils/Settings.antt =====
-- utils/json.go, utils/io.go: settings kept as indented JSON in a file. The file system is the files by name
-- and whether `os.Create` succeeds; a setting is any struct, by its object and the filling of its fields.
pub mod Laws
use Prim.Native.Char.{Char, code}
use zhangyu.Base.{ℕ, String, ◌≡◌, Bool, true, false, Option, none, some, nat_eq, if◌then◌else◌}
use zhangyu.Base.Dict
use zhangyu.Utils.Json.{Json, null, obj, Fields}

pub record Disk : Type 0 where
  pub files : Dict.Entries String
  pub writable : Bool

-- The errors of `os.Stat`.
pub data StatError : Type 0 where
  already_exists not_found : StatError

abbrev pub stat_of : Option String → Option StatError
stat_of none = some not_found
stat_of (some content) = none

abbrev stat : Disk → String → Option StatError
stat disk name = stat_of (Dict.lookup name disk.files)

abbrev pub exists_by : Option StatError → Bool
exists_by none = true
exists_by (some already_exists) = true
exists_by (some not_found) = false

-- `FileExists`.
unfoldable pub file_exists : Disk → String → Bool
file_exists disk name = exists_by (stat disk name)

-- `strings.ReplaceAll(s, "\n", "\r\n")`.
unfoldable pub replace_newlines : String → String
replace_newlines String.[] = String.[]
replace_newlines (String.◌∷◌ c s) =
    let rest = replace_newlines s in
    if nat_eq (code c) 10 then String.◌∷◌ "\r" (String.◌∷◌ c rest) else String.◌∷◌ c rest

-- The ends of lines of the system.
abbrev pub system_lines : Bool → String → String
system_lines windows s = if windows then replace_newlines s else s

-- `json.Indent` of the text of a document, and the first document that a `json.Decoder` reads. White space
-- between tokens means nothing, and a text in JSON holds no newline of its own.
pub record IndentedText : Type 0 where
  pub indent : Json → String
  pub decode : String → Option Json
  pub decode-indent :
      (windows : Bool) (j : Json) → decode (system_lines windows (indent j)) ≡ some j

-- How a struct goes to an object and back.
pub record Setting (A : Type 0) : Type 0 where
  pub marshal : A → Fields
  pub unmarshal : Fields → A → A × Bool

module _ (text : IndentedText) (windows : Bool) {A : Type 0} (setting : Setting A) where
  abbrev pub setting_text : A → String
  setting_text a = system_lines windows (text.indent (obj (setting.marshal a)))

  -- `SaveJsonSetting`: `os.Create` empties the file.
  unfoldable pub save_json_setting : Disk → String → A → Disk
  save_json_setting disk name a =
      if disk.writable
      then record disk { files = Dict.insert name (setting_text a) disk.files }
      else disk

  -- `Decode` into the setting: its error is dropped.
  abbrev pub decode_setting : Option Json → A → A
  decode_setting (some (obj fields)) a = (setting.unmarshal fields a).0
  decode_setting _ a = a

  -- `ReadJsonSetting`, with what `resetHandle` does to the setting.
  unfoldable pub read_json_setting : Disk → String → A → (A → A) → A × Disk
  unfolding save_json_setting
  read_json_setting disk name a reset = elim (Dict.lookup name disk.files) [
    | some content ↦ (decode_setting (text.decode content) (reset a), disk)
    | none ↦ (reset a, save_json_setting disk name (reset a))
  ]
