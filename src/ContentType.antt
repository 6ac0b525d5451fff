-- ===== src/ContentType.antt =====
-- determineContentType of src/dht_crawler.cpp: the kind of a torrent by the extensions of its files.
-- ::tolower is that of the C locale.
pub mod Order
use dht_crawler.Base.{
  ℕ, ◌+◌, List, [], ◌∷◌, Option, none, some, Bool, true, false, ◌&&◌, ◌||◌, Bytes, bytes, bytes_key,
  StdSet, contains, add, leb, ◌==◌, if◌then◌else◌, map, String,
}

-- filename.substr(filename.find_last_of('.') + 1); none: there is no dot.
unfoldable pub extension : Bytes → Option Bytes
extension [] = none
extension (c ∷ cs) = elim (extension cs) [
  | some ext ↦ some ext
  | none ↦ if c == b'.' then some cs else none
]

unfoldable pub to_lower : ℕ → ℕ
to_lower c = if leb b'A' c && leb c b'Z' then c + 32 else c

-- The body of the loop over the file names, in which a name without a dot is skipped.
unfoldable pub note_extension : Option Bytes → StdSet Bytes → StdSet Bytes
note_extension none exts = exts
note_extension (some ext) exts = add (map to_lower ext) exts

unfoldable pub extensions_of : List Bytes → StdSet Bytes → StdSet Bytes
extensions_of [] exts = exts
extensions_of (f ∷ fs) exts = extensions_of fs (note_extension (extension f) exts)

-- for (const auto& ext : extensions) if (kinds.count(ext)) ...
unfoldable pub any_of : List Bytes → StdSet Bytes → Bool
any_of kinds [] = false
any_of kinds (ext ∷ exts) = contains ext kinds || any_of kinds exts

abbrev pub texts : List String → List Bytes
texts = map bytes

abbrev pub video_exts : List Bytes
video_exts =
    texts
      ("mp4" ∷ "avi" ∷ "mkv" ∷ "mov" ∷ "wmv" ∷ "flv" ∷ "webm" ∷ "m4v" ∷ "3gp" ∷ "mpg" ∷ "mpeg" ∷ [])

abbrev pub audio_exts : List Bytes
audio_exts = texts ("mp3" ∷ "flac" ∷ "wav" ∷ "aac" ∷ "ogg" ∷ "wma" ∷ "m4a" ∷ "opus" ∷ [])

abbrev pub software_exts : List Bytes
software_exts = texts ("exe" ∷ "msi" ∷ "dmg" ∷ "pkg" ∷ "deb" ∷ "rpm" ∷ "app" ∷ "iso" ∷ "bin" ∷ [])

abbrev pub doc_exts : List Bytes
doc_exts =
    texts ("pdf" ∷ "doc" ∷ "docx" ∷ "txt" ∷ "rtf" ∷ "odt" ∷ "ppt" ∷ "pptx" ∷ "xls" ∷ "xlsx" ∷ [])

abbrev pub image_exts : List Bytes
image_exts = texts ("jpg" ∷ "jpeg" ∷ "png" ∷ "gif" ∷ "bmp" ∷ "tiff" ∷ "svg" ∷ "webp" ∷ [])

abbrev pub archive_exts : List Bytes
archive_exts = texts ("zip" ∷ "rar" ∷ "7z" ∷ "tar" ∷ "gz" ∷ "bz2" ∷ "xz" ∷ [])

-- The tests in turn, on the extensions found.
unfoldable pub classify : StdSet Bytes → Bytes
classify exts =
    if any_of video_exts exts
    then bytes "video"
    else if any_of audio_exts exts
    then bytes "audio"
    else if any_of software_exts exts
    then bytes "software"
    else if any_of doc_exts exts
    then bytes "document"
    else if any_of image_exts exts
    then bytes "image"
    else if any_of archive_exts exts
    then bytes "archive"
    else bytes "other"

unfoldable pub determine_content_type : List Bytes → Bytes
determine_content_type [] = bytes "unknown"
determine_content_type (f ∷ fs) = classify (extensions_of (f ∷ fs) [])
