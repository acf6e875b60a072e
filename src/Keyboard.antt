-- ===== src/Keyboard.antt =====
-- src/drivers/keyboard.c: the ring of typed keys and the state machine of the interrupt handler.
-- A char is its byte, so SPECIAL_KEY_UP is 0x80 and not a negative number. The data port is the
-- handler's argument. The interrupt count, which is only logged, is left out.
pub mod Ring
pub mod Handler
pub mod Wait
mod Tests
use cgos.Base.{
  ℕ, ◌+◌, ◌%◌, bit_and, bit_or, bit_xor, Bool, true, false, not, ◌&&◌, ◌||◌, List, [], ◌∷◌, Option,
  none, some, ltb, leb, ◌==◌, if◌then◌else◌, get_or, set, length,
}

-- KEY_BUFFER_SIZE
abbrev pub key_buffer_size : ℕ
key_buffer_size = 64

-- MOD_SHIFT, MOD_CTRL, MOD_ALT, MOD_CAPS
abbrev pub mod_shift : ℕ
mod_shift = 1

abbrev pub mod_ctrl : ℕ
mod_ctrl = 2

abbrev pub mod_alt : ℕ
mod_alt = 4

abbrev pub mod_caps : ℕ
mod_caps = 8

unfoldable pub scancode_to_ascii : List ℕ
scancode_to_ascii =
    0 ∷ 27 ∷ 49 ∷ 50 ∷ 51 ∷ 52 ∷ 53 ∷ 54 ∷ 55 ∷ 56 ∷ 57 ∷ 48 ∷ 45 ∷ 61 ∷ 8 ∷ 9 ∷ 113 ∷ 119 ∷ 101
    ∷ 114 ∷ 116 ∷ 121 ∷ 117 ∷ 105 ∷ 111 ∷ 112 ∷ 91 ∷ 93 ∷ 10 ∷ 0 ∷ 97 ∷ 115 ∷ 100 ∷ 102 ∷ 103 ∷ 104
    ∷ 106 ∷ 107 ∷ 108 ∷ 59 ∷ 39 ∷ 96 ∷ 0 ∷ 92 ∷ 122 ∷ 120 ∷ 99 ∷ 118 ∷ 98 ∷ 110 ∷ 109 ∷ 44 ∷ 46 ∷ 47
    ∷ 0 ∷ 42 ∷ 0 ∷ 32 ∷ []

unfoldable pub scancode_to_ascii_shift : List ℕ
scancode_to_ascii_shift =
    0 ∷ 27 ∷ 33 ∷ 64 ∷ 35 ∷ 36 ∷ 37 ∷ 94 ∷ 38 ∷ 42 ∷ 40 ∷ 41 ∷ 95 ∷ 43 ∷ 8 ∷ 9 ∷ 81 ∷ 87 ∷ 69 ∷ 82
    ∷ 84 ∷ 89 ∷ 85 ∷ 73 ∷ 79 ∷ 80 ∷ 123 ∷ 125 ∷ 10 ∷ 0 ∷ 65 ∷ 83 ∷ 68 ∷ 70 ∷ 71 ∷ 72 ∷ 74 ∷ 75 ∷ 76
    ∷ 58 ∷ 34 ∷ 126 ∷ 0 ∷ 124 ∷ 90 ∷ 88 ∷ 67 ∷ 86 ∷ 66 ∷ 78 ∷ 77 ∷ 60 ∷ 62 ∷ 63 ∷ 0 ∷ 42 ∷ 0 ∷ 32
    ∷ []

-- The statics of the driver. `eoi_count` counts the ends of interrupt sent to the PIC.
pub record Keyboard : Type 0 where
  pub key_buffer : List ℕ
  pub buffer_head : ℕ
  pub buffer_tail : ℕ
  pub modifier_state : ℕ
  pub extended_key : Bool
  pub eoi_count : ℕ

unfoldable pub buffer_put : Keyboard → ℕ → Keyboard
buffer_put k c =
    let next : ℕ = (k.buffer_head + 1) % key_buffer_size in
    if next == k.buffer_tail
    then k
    else record k { key_buffer = set k.key_buffer k.buffer_head c; buffer_head = next }

unfoldable pub buffer_get : Keyboard → ℕ × Keyboard
buffer_get k = if k.buffer_tail == k.buffer_head then (0, k) else (
  get_or k.key_buffer k.buffer_tail 0,
  record k { buffer_tail = (k.buffer_tail + 1) % key_buffer_size },
)

unfoldable pub keyboard_has_key : Keyboard → Bool
keyboard_has_key k = not (k.buffer_head == k.buffer_tail)

-- The special keys that follow the prefix 0xE0.
unfoldable pub press_extended : Keyboard → ℕ → Keyboard
unfolding buffer_put
press_extended k key =
    if key == 0x48
    then buffer_put k 0x80
    else if key == 0x50
    then buffer_put k 0x81
    else if key == 0x4B
    then buffer_put k 0x82
    else if key == 0x4D
    then buffer_put k 0x83
    else k

-- A modifier key pressed or released.
unfoldable pub hold : Keyboard → ℕ → Bool → Keyboard
hold k flag released =
    if released
    then record k { modifier_state = bit_and k.modifier_state (bit_xor 255 flag) }
    else record k { modifier_state = bit_or k.modifier_state flag }

-- The translation of the code of a pressed key; 0 stands for no character.
unfoldable pub translate : ℕ → ℕ → ℕ
unfolding scancode_to_ascii scancode_to_ascii_shift
translate modifiers key =
    let shift : Bool = not (bit_and modifiers mod_shift == 0) in
    let caps : Bool = not (bit_and modifiers mod_caps == 0) in
    let shift' : Bool = if caps && (leb 0x10 key && leb key 0x32) then not shift else shift in
    if ltb key (length scancode_to_ascii)
    then (if shift' then get_or scancode_to_ascii_shift key 0 else get_or scancode_to_ascii key 0)
    else 0

unfoldable pub press : Keyboard → ℕ → Keyboard
unfolding translate buffer_put
press k key =
    let ascii : ℕ = translate k.modifier_state key in if ascii == 0 then k else buffer_put k ascii

-- The handler from the scan code to the label `done`.
unfoldable pub handle_scancode : Keyboard → ℕ → Keyboard
unfolding press_extended hold press
handle_scancode k scancode =
    let released : Bool = not (bit_and scancode 0x80 == 0) in
    let key : ℕ = bit_and scancode 0x7F in
    if scancode == 0xE0
    then record k { extended_key = true }
    else if k.extended_key
    then (let k' : Keyboard = record k { extended_key = false } in
        if released then k' else press_extended k' key)
    else if key == 0x2A || (key == 0x36)
    then hold k mod_shift released
    else if key == 0x1D
    then hold k mod_ctrl released
    else if key == 0x38
    then hold k mod_alt released
    else if key == 0x3A
    then (if released then k else record k { modifier_state = bit_xor k.modifier_state mod_caps })
    else if released
    then k
    else press k key

unfoldable pub keyboard_irq_handler : Keyboard → ℕ → Keyboard
unfolding handle_scancode
keyboard_irq_handler k scancode =
    let k' : Keyboard = handle_scancode k scancode in record k' { eoi_count = k'.eoi_count + 1 }

unfoldable pub keyboard_get_modifiers : Keyboard → ℕ
keyboard_get_modifiers k = k.modifier_state

-- The wait for a key is interrupted by the scan codes of the list, one after the other; with no
-- interrupt left it goes on waiting, which is none.
unfoldable pub keyboard_get_char : Keyboard → List ℕ → Option (ℕ × Keyboard)
unfolding keyboard_has_key buffer_get keyboard_irq_handler
keyboard_get_char k [] = if keyboard_has_key k then some (buffer_get k) else none
keyboard_get_char k (c ∷ cs) =
    let rest = keyboard_get_char (keyboard_irq_handler k c) cs in
    if keyboard_has_key k then some (buffer_get k) else rest
