-- ===== src/Keyboard/Tests.antt =====
-- Concrete runs of the keyboard driver.
use cgos.Base.{◌≡◌, refl, false, [], ◌∷◌, arith, replicate}
use cgos.Keyboard.{Keyboard, buffer_put, buffer_get, keyboard_irq_handler, keyboard_get_char}
use cgos.Keyboard.Ring.{IsRing, contents, push, pop, contents-buffer_put, contents-buffer_get}
use cgos.Keyboard.Handler.{IsKeyboard, IsHandled, irq_handler-IsHandled}
use cgos.Keyboard.Wait.{Got, run, get_char-Got}

abbrev idle : Keyboard
idle = record {
  key_buffer = replicate 64 0;
  buffer_head = 63;
  buffer_tail = 63;
  modifier_state = 8;
  extended_key = false;
  eoi_count = 0;
}

idle-IsRing : IsRing idle
idle-IsRing = record { sized = refl; head = omega arith; tail = omega arith }

idle-IsKeyboard : IsKeyboard idle
unfolding contents cgos.Keyboard.Ring.cells
idle-IsKeyboard = record { ring = idle-IsRing; keys = tt }

irq_handler-IsHandled_example : IsHandled idle (keyboard_irq_handler idle 0x10)
irq_handler-IsHandled_example = irq_handler-IsHandled idle 0x10 idle-IsKeyboard

-- With Caps Lock on, the code of the key Q types the capital letter.
key_left : contents (run idle (0x90 ∷ 0x10 ∷ [])) ≡ 81 ∷ []
unfolding contents cgos.Keyboard.Ring.cells run keyboard_irq_handler cgos.Keyboard.handle_scancode
    cgos.Keyboard.press cgos.Keyboard.translate cgos.Keyboard.scancode_to_ascii
    cgos.Keyboard.scancode_to_ascii_shift buffer_put
key_left = refl

get_char-Got_example : Got (keyboard_get_char idle (0x90 ∷ 0x10 ∷ []))
get_char-Got_example =
    get_char-Got idle (0x90 ∷ 0x10 ∷ []) idle-IsKeyboard
      (λ e. absurd (let h = key_left in ground arith))
