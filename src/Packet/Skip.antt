-- ===== src/Packet/Skip.antt =====
-- A reader of the entries of a search result, as the protocol has them: it takes no tag by its name.
use ed2kd.Base.{
  ℕ, zero, suc, ◌+◌, ◌*◌, ◌≡◌, refl, Option, none, some, List, [], ◌∷◌, ◌++◌, length, if◌then◌else◌,
  ◌==◌,
}
use ed2kd.Proto.Tt

-- The bytes behind the first n, if there are as many.
unfoldable pub skip : ℕ → List ℕ → Option (List ℕ)
skip zero xs = some xs
skip (suc n) [] = none
skip (suc n) (x ∷ xs) = skip n xs

pub skip-append : (xs ys : List ℕ) → skip (length xs) (xs ++ ys) ≡ some ys
unfolding skip
skip-append [] ys = refl
skip-append (x ∷ xs) ys = skip-append xs ys

-- A text: its length in two bytes, its characters.
unfoldable pub skip_text : List ℕ → Option (List ℕ)
unfolding skip
skip_text (a ∷ b ∷ rest) = skip (a + 256 * b) rest
skip_text _ = none

-- The value of a tag of a given type.
unfoldable pub skip_value : ℕ → List ℕ → Option (List ℕ)
unfolding skip_text
skip_value type bytes =
    if type == Tt.uint32
    then skip 4 bytes
    else if type == Tt.uint16
    then skip 2 bytes
    else if type == Tt.uint64
    then skip 8 bytes
    else if type == Tt.string
    then skip_text bytes
    else none

-- A whole tag: type, length of the name, name, value.
unfoldable pub skip_tag : List ℕ → Option (List ℕ)
unfolding skip_value
skip_tag (type ∷ a ∷ b ∷ rest) = elim (skip (a + 256 * b) rest) [
  | none ↦ none
  | some r ↦ skip_value type r
]
skip_tag _ = none

unfoldable pub skip_tags : ℕ → List ℕ → Option (List ℕ)
skip_tags zero bytes = some bytes
skip_tags (suc n) bytes = elim (skip_tag bytes) [ none ↦ none | some rest ↦ skip_tags n rest ]

-- An entry of a search result: hash, id and port, the number of tags, and so many tags.
unfoldable pub skip_count : List ℕ → Option (List ℕ)
skip_count (a ∷ b ∷ c ∷ d ∷ rest) = skip_tags (a + 256 * b + 65536 * c + 16777216 * d) rest
skip_count _ = none

unfoldable pub skip_entry : List ℕ → Option (List ℕ)
unfolding skip_count skip
skip_entry bytes = elim (skip 22 bytes) [ none ↦ none | some rest ↦ skip_count rest ]
