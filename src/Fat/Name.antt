-- ===== src/Fat/Name.antt =====
-- File names in src/fs/fat16.c. A text is the list of its characters before the terminator, and a
-- directory entry the list of its 32 bytes, of which the first 11 are the name and the extension.
pub mod Layout
pub mod Match
use cgos.Base.{
  ℕ, zero, suc, ◌+◌, ◌-◌, Bool, true, false, ◌&&◌, ◌||◌, List, [], ◌∷◌, ◌++◌, leb, ◌==◌,
  if◌then◌else◌, replicate,
}
use cgos.Fat.Disk.{get8, put8}

-- `if (c >= 'a' && c <= 'z') c -= 32`
unfoldable pub upper : ℕ → ℕ
upper c = if leb b'a' c && leb c b'z' then c - 32 else c

-- The loop over `n` bytes of a name that ends at a space.
unfoldable pub trimmed : ℕ → List ℕ → ℕ → List ℕ
trimmed zero bytes at = []
trimmed (suc n) bytes at =
    if get8 bytes at == b' ' then [] else get8 bytes at ∷ trimmed n bytes (at + 1)

-- The name of an entry as text.
unfoldable pub entry_name : List ℕ → List ℕ
entry_name entry =
    trimmed 8 entry 0 ++ (if get8 entry 8 == b' ' then [] else b'.' ∷ trimmed 3 entry 8)

-- The comparison, which does not tell small letters from capitals.
unfoldable pub same_text : List ℕ → List ℕ → Bool
unfolding upper
same_text [] [] = true
same_text [] (b ∷ bs) = 0 == b
same_text (a ∷ as') [] = a == 0
same_text (a ∷ as') (b ∷ bs) =
    if a == 0 || b == 0 then a == b else if upper a == upper b then same_text as' bs else false

unfoldable pub name_matches : List ℕ → List ℕ → Bool
unfolding entry_name same_text
name_matches entry name = same_text (entry_name entry) name

-- The loop over the name part, with room for `n` more characters: the text that is left, and the
-- bytes.
unfoldable pub copy_base : ℕ → List ℕ → ℕ → List ℕ → List ℕ × List ℕ
unfolding upper
copy_base zero name i name83 = (name, name83)
copy_base (suc n) [] i name83 = ([], name83)
copy_base (suc n) (c ∷ name) i name83 =
    if c == b'.' then (c ∷ name, name83) else copy_base n name (i + 1) (put8 name83 i (upper c))

unfoldable pub skip_to_dot : List ℕ → List ℕ
skip_to_dot [] = []
skip_to_dot (c ∷ name) = if c == b'.' then c ∷ name else skip_to_dot name

unfoldable pub skip_dot : List ℕ → List ℕ
skip_dot [] = []
skip_dot (c ∷ name) = if c == b'.' then name else c ∷ name

-- The loop over the extension, from byte `at` on.
unfoldable pub copy_ext : ℕ → List ℕ → ℕ → List ℕ → List ℕ
unfolding upper
copy_ext zero name at name83 = name83
copy_ext (suc n) [] at name83 = name83
copy_ext (suc n) (c ∷ name) at name83 = copy_ext n name (at + 1) (put8 name83 at (upper c))

abbrev pub finish_83 : List ℕ × List ℕ → List ℕ
unfolding skip_to_dot skip_dot copy_ext
finish_83 (rest, name83) = copy_ext 3 (skip_dot (skip_to_dot rest)) 8 name83

-- The eleven bytes of a name.
unfoldable pub name_to_83 : List ℕ → List ℕ
unfolding copy_base finish_83
name_to_83 name = finish_83 (copy_base 8 name 0 (replicate 11 b' '))
