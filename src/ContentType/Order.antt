-- ===== src/ContentType/Order.antt =====
-- The kind of a torrent, told by its files alone: neither their order nor a repeated extension
-- matters.
use dht_crawler.Base.{
  List, [], ◌∷◌, ◌≡◌, refl, Option, none, some, Bool, false, ◌||◌, Bytes, bytes, bytes_key, StdSet,
  contains, add, if◌then◌else◌, map, arith, Bytes-discrete,
}
use dht_crawler.ContentType.{
  extension, to_lower, note_extension, extensions_of, any_of, video_exts, audio_exts, software_exts,
  doc_exts, image_exts, archive_exts, classify, determine_content_type,
}

-- The extension, in letters of either case, is of this kind.
unfoldable pub is_kind : List Bytes → Option Bytes → Bool
is_kind kinds none = false
is_kind kinds (some ext) = contains (map to_lower ext) kinds

unfoldable pub any_file : List Bytes → List Bytes → Bool
any_file kinds [] = false
any_file kinds (f ∷ fs) = is_kind kinds (extension f) || any_file kinds fs

-- The first kind in this order of which there is a file.
unfoldable pub first_kind : List Bytes → Bytes
first_kind fs =
    if any_file video_exts fs
    then bytes "video"
    else if any_file audio_exts fs
    then bytes "audio"
    else if any_file software_exts fs
    then bytes "software"
    else if any_file doc_exts fs
    then bytes "document"
    else if any_file image_exts fs
    then bytes "image"
    else if any_file archive_exts fs
    then bytes "archive"
    else bytes "other"

module _ (kinds : List Bytes) where
  any_of-add :
      (k : Bytes) (s : StdSet Bytes) → any_of kinds (add k s) ≡ (contains k kinds || any_of kinds s)
  unfolding any_of add
  any_of-add k [] = refl
  any_of-add k (j ∷ s) = elim (Bytes-discrete j k) [
    | yes p ↦ ground (arith, p)
    | no n ↦ ground (arith, n, any_of-add k s)
  ]

  any_of-note_extension :
      (o : Option Bytes) (s : StdSet Bytes)
      → any_of kinds (note_extension o s) ≡ (is_kind kinds o || any_of kinds s)
  unfolding note_extension is_kind
  any_of-note_extension none s = refl
  any_of-note_extension (some ext) s = any_of-add (map to_lower ext) s

  any_of-extensions_of :
      (fs : List Bytes) (s : StdSet Bytes)
      → any_of kinds (extensions_of fs s) ≡ (any_file kinds fs || any_of kinds s)
  unfolding extensions_of any_file
  any_of-extensions_of [] s = refl
  any_of-extensions_of (f ∷ fs) s = ground (
    arith,
    any_of-extensions_of fs (note_extension (extension f) s),
    any_of-note_extension (extension f) s,
  )

  any_of_all : (fs : List Bytes) → any_of kinds (extensions_of fs []) ≡ any_file kinds fs
  unfolding any_of
  any_of_all fs = ground (arith, any_of-extensions_of fs [])

ruleset by_files = (any_of_all)

-- determineContentType gives "unknown" without a file, and otherwise the first of the kinds, in its
-- order, of which there is a file.
pub determine_content_type_lem :
    (fs : List Bytes)
    → determine_content_type fs ≡ (elim fs [ [] ↦ bytes "unknown" | f ∷ r ↦ first_kind (f ∷ r) ])
unfolding determine_content_type classify first_kind
determine_content_type_lem [] = refl
determine_content_type_lem (f ∷ fs) = simp by_files
