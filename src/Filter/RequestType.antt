-- ===== src/Filter/RequestType.antt =====
-- core/crates/filter/src/request_type.rs. A header or a path is a list of code points.
pub mod Query
use tollgate.Common.{
  ℕ, Bool, true, false, not, ◌&&◌, ◌||◌, Option, none, some, List, [], ◌∷◌, ◌==◌, if◌then◌else◌,
  unwrap_or, Text, codes, str_eq, contains, lower, eq_ignore_ascii_case, trim, is_empty,
}

-- `FETCH_DEST`
abbrev pub fetch_dest : List (Text × Text)
fetch_dest =
    (codes "audio", codes "media")
    ∷ (codes "audioworklet", codes "script")
    ∷ (codes "document", codes "document")
    ∷ (codes "embed", codes "object")
    ∷ (codes "empty", codes "xmlhttprequest")
    ∷ (codes "fencedframe", codes "sub_frame")
    ∷ (codes "font", codes "font")
    ∷ (codes "frame", codes "sub_frame")
    ∷ (codes "iframe", codes "sub_frame")
    ∷ (codes "image", codes "image")
    ∷ (codes "json", codes "xmlhttprequest")
    ∷ (codes "manifest", codes "other")
    ∷ (codes "object", codes "object")
    ∷ (codes "paintworklet", codes "script")
    ∷ (codes "report", codes "ping")
    ∷ (codes "script", codes "script")
    ∷ (codes "serviceworker", codes "script")
    ∷ (codes "sharedworker", codes "script")
    ∷ (codes "style", codes "stylesheet")
    ∷ (codes "track", codes "media")
    ∷ (codes "video", codes "media")
    ∷ (codes "webidentity", codes "other")
    ∷ (codes "worker", codes "script")
    ∷ (codes "xslt", codes "other")
    ∷ []

-- the `find` on the table, with the `map` of its result
unfoldable pub find_kind : List (Text × Text) → Text → Option Text
find_kind [] dest = none
find_kind ((name, kind) ∷ rest) dest =
    let later = find_kind rest dest in if eq_ignore_ascii_case name dest then some kind else later

unfoldable pub from_fetch_dest : Text → Option Text
unfolding find_kind trim
from_fetch_dest dest = find_kind fetch_dest (trim dest)

-- `s.split(p).next()`: what stands before the first character of a kind
unfoldable pub before : (ℕ → Bool) → Text → Text
before p [] = []
before p (c ∷ s) = let rest = before p s in if p c then [] else c ∷ rest

unfoldable pub starts_with : Text → Text → Bool
starts_with s [] = true
starts_with [] (p ∷ prefix) = false
starts_with (c ∷ s) (p ∷ prefix) = (c == p) && starts_with s prefix

unfoldable pub ends_with : Text → Text → Bool
ends_with [] suffix = str_eq [] suffix
ends_with (c ∷ s) suffix = str_eq (c ∷ s) suffix || ends_with s suffix

abbrev pub script_types : List Text
script_types =
    codes "application/javascript"
    ∷ codes "text/javascript"
    ∷ codes "application/ecmascript"
    ∷ codes "text/ecmascript"
    ∷ []

-- the `match` on the first media range
unfoldable pub from_media_type : Text → Option Text
unfolding starts_with ends_with str_eq
from_media_type t =
    if contains (codes "text/html" ∷ codes "application/xhtml+xml" ∷ []) t
    then some (codes "document")
    else if str_eq t (codes "text/css")
    then some (codes "stylesheet")
    else if contains script_types t
    then some (codes "script")
    else if str_eq t (codes "application/json")
    then some (codes "xmlhttprequest")
    else if starts_with t (codes "image/")
    then some (codes "image")
    else if starts_with t (codes "font/") || starts_with t (codes "application/font-")
    then some (codes "font")
    else if starts_with t (codes "video/") || starts_with t (codes "audio/")
    then some (codes "media")
    else if ends_with t (codes "+json")
    then some (codes "xmlhttprequest")
    else none

unfoldable pub from_accept : Text → Option Text
unfolding before trim lower from_media_type
from_accept accept =
    from_media_type (lower (trim (before (λ c. c == 0x3b) (before (λ c. c == 0x2c) accept))))

-- `s.rsplit('/').next()`: what stands after the last `/`
unfoldable pub file_name : Text → Text → Text
file_name name [] = name
file_name name (c ∷ s) = file_name (if c == 0x2f then s else name) s

-- `s.rsplit_once('.')`, of which the code uses the second part
unfoldable pub extension : Text → Option Text
extension [] = none
extension (c ∷ s) = elim (extension s) [
  | some ext ↦ some ext
  | none ↦ if c == 0x2e then some s else none
]

abbrev pub image_extensions : List Text
image_extensions =
    codes "png"
    ∷ codes "jpg"
    ∷ codes "jpeg"
    ∷ codes "gif"
    ∷ codes "webp"
    ∷ codes "avif"
    ∷ codes "svg"
    ∷ codes "ico"
    ∷ codes "bmp"
    ∷ codes "apng"
    ∷ codes "heic"
    ∷ codes "jxl"
    ∷ []

abbrev pub media_extensions : List Text
media_extensions =
    codes "mp4"
    ∷ codes "m4v"
    ∷ codes "webm"
    ∷ codes "mov"
    ∷ codes "mp3"
    ∷ codes "m4a"
    ∷ codes "aac"
    ∷ codes "ogg"
    ∷ codes "oga"
    ∷ codes "opus"
    ∷ codes "wav"
    ∷ codes "flac"
    ∷ codes "m3u8"
    ∷ codes "mpd"
    ∷ codes "m4s"
    ∷ []

abbrev pub font_extensions : List Text
font_extensions = codes "woff" ∷ codes "woff2" ∷ codes "ttf" ∷ codes "otf" ∷ codes "eot" ∷ []

-- the `match` on the lower-case extension
unfoldable pub kind_of_extension : Text → Text
unfolding str_eq
kind_of_extension ext =
    if contains (codes "js" ∷ codes "mjs" ∷ codes "cjs" ∷ []) ext
    then codes "script"
    else if str_eq ext (codes "css")
    then codes "stylesheet"
    else if contains image_extensions ext
    then codes "image"
    else if contains font_extensions ext
    then codes "font"
    else if contains media_extensions ext
    then codes "media"
    else if str_eq ext (codes "json")
    then codes "xmlhttprequest"
    else codes "other"

abbrev pub is_query_or_fragment : ℕ → Bool
is_query_or_fragment c = (c == 0x3f) || (c == 0x23)

-- what follows the cut at the query
unfoldable pub kind_of_path : Text → Text
unfolding file_name extension lower kind_of_extension
kind_of_path path = elim (extension (file_name path path)) [
  | none ↦ codes "other"
  | some ext ↦ kind_of_extension (lower ext)
]

unfoldable pub from_extension : Text → Text
unfolding before kind_of_path
from_extension path = kind_of_path (before is_query_or_fragment path)

abbrev pub and_then : Option Text → (Text → Option Text) → Option Text
and_then none f = none
and_then (some s) f = f s

abbrev pub first_kind : Option Text → Option Text → Text → Text
first_kind (some kind) accepted kind_by_path = kind
first_kind none accepted kind_by_path = unwrap_or accepted kind_by_path

unfoldable pub request_type : Option Text → Option Text → Text → Text
unfolding from_fetch_dest from_accept from_extension
request_type sec_fetch_dest accept path =
    first_kind (and_then sec_fetch_dest from_fetch_dest) (and_then accept from_accept)
      (from_extension path)

-- `Option::filter` and `Option::or`
abbrev pub usable_source : (Text → Bool) → Option Text → Option Text → Option Text
usable_source p none other = other
usable_source p (some s) other = if p s then some s else other

unfoldable pub source_url : Text → Text → Option Text → Option Text → Text
unfolding str_eq
source_url url kind referer origin =
    if str_eq kind (codes "document")
    then url
    else unwrap_or
        (usable_source (λ r. not (is_empty r)) referer
          (usable_source (λ o. not (is_empty o) && not (str_eq o (codes "null"))) origin none))
        []
