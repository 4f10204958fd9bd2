-- ===== src/Utils/Http.antt =====
-- utils/http.go: where a request comes from, and what its body is. A header is the function `Get` of
-- `net/http`.
pub mod Streams
pub mod Reads
pub mod Trips
use zhangyu.Base.{String, Bool, ◌==◌, ◌||◌, if◌then◌else◌}
use zhangyu.Base.Strings.{has_prefix}
use zhangyu.Base.Text.{CaseTable, to_lower}

abbrev pub HttpHeader : Type 0
HttpHeader = String → String

-- `GetRealRemoteAddr`.
unfoldable pub get_real_remote_addr : HttpHeader → String → String
get_real_remote_addr header remote_addr =
    if header "X-Forwarded-Ip" == ""
    then (if header "X-Client-IP" == ""
        then (if header "x-Original-Forwarded-For" == ""
            then (if header "X-Forwarded-For" == ""
                then (if header "X-Real-IP" == "" then remote_addr else header "X-Real-IP")
                else header "X-Forwarded-For")
            else header "x-Original-Forwarded-For")
        else header "X-Client-IP")
    else header "X-Forwarded-Ip"

-- `strings.Contains`.
unfoldable pub contains : String → String → Bool
contains String.[] part = part == ""
contains (String.◌∷◌ c s) part = has_prefix part (String.◌∷◌ c s) || contains s part

-- `IsJson` and `IsGzip`.
unfoldable is_json : CaseTable → HttpHeader → Bool
is_json u header = contains (to_lower u (header "Content-Type")) "json"

unfoldable pub is_gzip : HttpHeader → Bool
is_gzip header = contains (header "Content-Encoding") "gzip"
