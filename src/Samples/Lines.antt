-- ===== src/Samples/Lines.antt =====
-- Documents in texts whose newlines are marked, so that the ends of lines can be replaced and read back.
use Prim.Native.Char.{code}
use zhangyu.Base.{
  String, ◌≡◌, refl, ap, ◌∙◌, Bool, true, false, some, nat_eq, ◌||◌, if◌then◌else◌, arith,
}
use zhangyu.Utils.Json.{Json}
use zhangyu.Utils.Settings.{IndentedText, replace_newlines, system_lines}
use zhangyu.Samples.Codec.{to_text, of_text, of_text-to_text}

escape : String → String
escape String.[] = String.[]
escape (String.◌∷◌ c s) =
    let rest = String.◌∷◌ c (escape s) in
    if nat_eq (code c) 10 || nat_eq (code c) 92 then String.◌∷◌ "\\" rest else rest

pub unescape : Bool → String → String
unescape escaped String.[] = String.[]
unescape false (String.◌∷◌ c s) =
    let marked = unescape true s in
    let plain = String.◌∷◌ c (unescape false s) in if nat_eq (code c) 92 then marked else plain
unescape true (String.◌∷◌ c s) =
    let same = unescape true s in
    let next = String.◌∷◌ c (unescape false s) in if nat_eq (code c) 13 then same else next

unescape-escape : (s : String) → unescape false (escape s) ≡ s
unfolding escape unescape
unescape-escape String.[] = refl
unescape-escape (String.◌∷◌ c s) = ground (arith, unescape-escape s)

unescape-replace : (s : String) → unescape false (replace_newlines (escape s)) ≡ s
unfolding escape unescape replace_newlines
unescape-replace String.[] = refl
unescape-replace (String.◌∷◌ c s) = ground (arith, unescape-replace s)

pub lines_text : Json → String
lines_text j = escape (to_text j)

pub lines_trip :
    (windows : Bool) (j : Json)
    → of_text (unescape false (system_lines windows (lines_text j))) ≡ some j
unfolding lines_text
lines_trip true j = ap of_text (unescape-replace (to_text j)) ∙ of_text-to_text j
lines_trip false j = ap of_text (unescape-escape (to_text j)) ∙ of_text-to_text j

abbrev pub lines : IndentedText
lines = record {
  indent = lines_text;
  decode = λ s. of_text (unescape false s);
  decode-indent = lines_trip;
}
