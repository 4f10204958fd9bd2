-- ===== src/Utils/Settings/Laws.antt =====
-- utils/json.go: what is read back from a settings file.
use zhangyu.Base.{String, ◌≡◌, Bool, true, some, refl, ap, ◌∙◌, eq_refl}
use zhangyu.Base.Dict
use zhangyu.Base.Dict.{lookup-insert}
use zhangyu.Utils.Json.{obj}
use zhangyu.Utils.Settings.{
  Disk, IndentedText, Setting, setting_text, save_json_setting, read_json_setting, decode_setting,
}

module _ (text : IndentedText) (windows : Bool) {A : Type 0} (setting : Setting A) where
  save_found :
      (disk : Disk) (name : String) (a : A)
      → disk.writable ≡ true
      → Dict.lookup name (save_json_setting text windows setting disk name a).files
        ≡ some (setting_text text windows setting a)
  unfolding save_json_setting
  save_found disk name a w = rw w (
      rw (lookup-insert name name (setting_text text windows setting a) disk.files)
        (rw (eq_refl name) refl))

  read_found :
      (disk : Disk) (name content : String) (a : A) (reset : A → A)
      → Dict.lookup name disk.files ≡ some content
      → read_json_setting text windows setting disk name a reset
        ≡ (decode_setting text windows setting (text.decode content) (reset a), disk)
  unfolding read_json_setting
  read_found disk name content a reset found = rw (found, read_json_setting) refl

  -- A setting that was saved is filled into what the reset makes.
  pub read_json_setting-save :
      (disk : Disk) (name : String) (a b : A) (reset : A → A)
      → disk.writable ≡ true
      → read_json_setting text windows setting
          (save_json_setting text windows setting disk name a)
          name
          b
          reset
        ≡ (
          (setting.unmarshal (setting.marshal a) (reset b)).0,
          save_json_setting text windows setting disk name a,
        )
  read_json_setting-save disk name a b reset w =
      read_found (save_json_setting text windows setting disk name a) name
        (setting_text text windows setting a) b reset (save_found disk name a w)
      ∙ ap
          (λ d. (
            decode_setting text windows setting d (reset b),
            save_json_setting text windows setting disk name a,
          ))
          (text.decode-indent windows (obj (setting.marshal a)))
