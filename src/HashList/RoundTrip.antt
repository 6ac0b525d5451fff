-- ===== src/HashList/RoundTrip.antt =====
-- A list of hashes, written with commas, is read back.
use mathlib.Core.List.{append_assoc, append-nil}
use dht_crawler.Base.{
  ℕ, List, [], ◌∷◌, ◌++◌, ◌≡◌, ◌≢◌, refl, sym, ap, ◌∙◌, Option, false, Bytes, bytes, ◌==◌, All,
  arith,
}
use dht_crawler.HashList.{
  is_blank, trim_front, trim_back, trim, pieces, trimmed, has_word, hashes_of,
}

-- A byte of a hash: no blank and no comma.
abbrev pub IsPlain : ℕ → Type 0
IsPlain c = (is_blank c ≡ false) × ((c == b',') ≡ false)

-- A hash as the option can hold it.
abbrev pub IsEntry : Bytes → Type 0
IsEntry h = (h ≢ []) × All IsPlain h

abbrev pub joined : List Bytes → Bytes
joined [] = []
joined (h ∷ []) = h
joined (h ∷ k ∷ hs) = h ++ (b',' ∷ b' ' ∷ joined (k ∷ hs))

trim_back_plain : (h : Bytes) → All IsPlain h → trim_back h ≡ h
unfolding trim_back
trim_back_plain [] a = refl
trim_back_plain (c ∷ []) a = ground (arith, a.0.0)
trim_back_plain (c ∷ d ∷ h) a = rw (trim_back_plain (d ∷ h) a.1)

trim_plain : (h : Bytes) → All IsPlain h → trim h ≡ h
unfolding trim trim_front
trim_plain [] a = refl
trim_plain (c ∷ h) a =
    let front : trim_front (c ∷ h) ≡ c ∷ h = ground (arith, a.0.0) in
    ap trim_back front ∙ trim_back_plain (c ∷ h) a

pieces_plain :
    (h piece rest : Bytes)
    → All IsPlain h
    → pieces b',' piece (h ++ rest) ≡ pieces b',' (piece ++ h) rest
unfolding pieces
pieces_plain [] piece rest a = rw append-nil
pieces_plain (c ∷ h) piece rest a =
    let here : pieces b',' piece (c ∷ (h ++ rest)) ≡ pieces b',' (piece ++ c ∷ []) (h ++ rest) =
      ground (arith, a.0.1) in
    here
    ∙ pieces_plain h (piece ++ c ∷ []) rest a.1
    ∙ ap (λ text. pieces b',' text rest) (append_assoc piece (c ∷ []) h)

-- A blank before an entry, or none, is trimmed away.
trim_entry : (h : Bytes) → All IsPlain h → trim (b' ' ∷ h) ≡ h
unfolding trim trim_front is_blank
trim_entry h a = trim_plain h a

kept_entry :
    (p : Bytes) (ps : List Bytes) (h : Bytes)
    → h ≢ []
    → trim p ≡ h
    → trimmed (p ∷ ps) ≡ h ∷ trimmed ps
unfolding trimmed
kept_entry p ps [] n e = absurd (n refl)
kept_entry p ps (c ∷ cs) n e = ground (arith, e)

pieces_end : (p : Bytes) → p ≢ [] → pieces b',' p [] ≡ p ∷ []
unfolding pieces
pieces_end [] n = absurd (n refl)
pieces_end (c ∷ cs) n = refl

trim_nil : trim [] ≡ []
unfolding trim trim_front trim_back
trim_nil = refl

-- The entries behind `front`, which trimming takes away.
trimmed-joined :
    (front : Bytes)
    → ((h : Bytes) → All IsPlain h → trim (front ++ h) ≡ h)
    → (h : Bytes) (hs : List Bytes) → IsEntry h
    → All IsEntry hs
    → trimmed (pieces b',' front (joined (h ∷ hs))) ≡ h ∷ hs
unfolding trimmed pieces is_blank
trimmed-joined front clears h [] v a =
    let some_text : (front ++ h) ≢ [] = λ e. v.0 (sym (clears h v.1) ∙ ap trim e ∙ trim_nil) in
    ap (λ text. trimmed (pieces b',' front text)) (sym (append-nil h))
    ∙ ap trimmed (pieces_plain h front [] v.1 ∙ pieces_end (front ++ h) some_text)
    ∙ kept_entry (front ++ h) [] h v.0 (clears h v.1)
trimmed-joined front clears h (k ∷ hs) v a =
    ap trimmed (pieces_plain h front (b',' ∷ b' ' ∷ joined (k ∷ hs)) v.1)
    ∙ kept_entry (front ++ h) (pieces b',' (b' ' ∷ []) (joined (k ∷ hs))) h v.0 (clears h v.1)
    ∙ ap (◌∷◌ h) (trimmed-joined (b' ' ∷ []) trim_entry k hs a.0 a.1)

-- Hashes that are not empty and hold neither a blank nor a comma, written with a comma and a space
-- between them, are read back in their order, unless the text looks like the name of a file.
pub hashes_of-joined :
    (file : Bytes → Option Bytes) (h : Bytes) (hs : List Bytes)
    → IsEntry h
    → All IsEntry hs
    → has_word (bytes ".txt") (joined (h ∷ hs)) ≡ false
    → has_word (bytes ".csv") (joined (h ∷ hs)) ≡ false
    → hashes_of file (joined (h ∷ hs)) ≡ h ∷ hs
unfolding hashes_of
hashes_of-joined file h hs v a no_txt no_csv =
    rw (no_txt, no_csv) (trimmed-joined [] trim_plain h hs v a)
