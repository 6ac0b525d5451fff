-- ===== src/HashList.antt =====
-- The hashes given to the crawler (setupMetadataOnlyMode of src/dht_crawler.cpp): a text with commas,
-- or the lines of a file. std::getline ends a piece at its delimiter, and gives no last empty one.
pub mod RoundTrip
use dht_crawler.Base.{
  ℕ, List, [], ◌∷◌, ◌++◌, Option, none, some, Bool, true, false, ◌&&◌, ◌||◌, Bytes, bytes, ◌==◌,
  if◌then◌else◌,
}

-- One of " \t\r\n".
unfoldable pub is_blank : ℕ → Bool
is_blank c = c == 32 || c == 9 || c == 13 || c == 10

-- erase(0, find_first_not_of(" \t\r\n")).
unfoldable pub trim_front : Bytes → Bytes
trim_front [] = []
trim_front (c ∷ cs) = elim (is_blank c) [ true ↦ trim_front cs | false ↦ c ∷ cs ]

-- erase(find_last_not_of(" \t\r\n") + 1).
unfoldable pub trim_back : Bytes → Bytes
trim_back [] = []
trim_back (c ∷ cs) = elim (trim_back cs) [
  | [] ↦ if is_blank c then [] else c ∷ []
  | d ∷ ds ↦ c ∷ d ∷ ds
]

unfoldable pub trim : Bytes → Bytes
unfolding trim_front trim_back
trim text = trim_back (trim_front text)

-- The pieces, with `piece` read so far; a piece that is empty at the end of the text is none.
unfoldable pub pieces : ℕ → Bytes → Bytes → List Bytes
pieces delimiter piece [] = elim piece [ [] ↦ [] | c ∷ cs ↦ (c ∷ cs) ∷ [] ]
pieces delimiter piece (c ∷ cs) = elim (c == delimiter) [
  | true ↦ piece ∷ pieces delimiter [] cs
  | false ↦ pieces delimiter (piece ++ c ∷ []) cs
]

-- The loop: each piece is trimmed, and an empty one is dropped.
unfoldable pub trimmed : List Bytes → List Bytes
trimmed [] = []
trimmed (p ∷ ps) = elim (trim p) [ [] ↦ trimmed ps | c ∷ cs ↦ (c ∷ cs) ∷ trimmed ps ]

-- hashes_str.find(word) != npos.
unfoldable pub starts_with : Bytes → Bytes → Bool
starts_with [] text = true
starts_with (c ∷ cs) [] = false
starts_with (c ∷ cs) (d ∷ ds) = c == d && starts_with cs ds

unfoldable pub has_word : Bytes → Bytes → Bool
has_word word [] = starts_with word []
has_word word (c ∷ cs) = starts_with word (c ∷ cs) || has_word word cs

-- The hashes that the option names. The files are an argument; none: the file cannot be opened.
unfoldable pub hashes_of : (Bytes → Option Bytes) → Bytes → List Bytes
hashes_of file hashes_str =
    if has_word (bytes ".txt") hashes_str || has_word (bytes ".csv") hashes_str
    then elim (file hashes_str) [ none ↦ [] | some text ↦ trimmed (pieces 10 [] text) ]
    else trimmed (pieces b',' [] hashes_str)
