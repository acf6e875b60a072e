-- ===== src/Keyboard/Wait.antt =====
-- Sequences of interrupts of src/drivers/keyboard.c: the wait for a key, and keys that are held.
use cgos.Base.{
  ℕ, ◌<◌, ◌≡◌, ◌≢◌, inl, inr, refl, sym, ap, subst, ◌∙◌, Bool, true, false, List, [], ◌∷◌, ◌==◌,
  Bool-cases, Option, some, bit_and, bit_or, bit_xor,
}
use cgos.Base.{◌-◌, ◌%◌, ==_iff}
use cgos.Base.Bits.{holds_below, holds_below-lt}
use mathlib.Core.Bool.{true≢false}
use cgos.Keyboard.{
  Keyboard, buffer_get, keyboard_has_key, hold, handle_scancode, keyboard_irq_handler,
  keyboard_get_char, mod_shift, mod_caps,
}
use cgos.Keyboard.Ring.{contents, pop, contents-buffer_get, buffer_get-IsRing, has_key-contents}
use cgos.Keyboard.Handler.{IsTyped, IsKeyboard, irq_handler-IsHandled}

-- The interrupts of a list, one after the other.
unfoldable pub run : Keyboard → List ℕ → Keyboard
run k [] = k
run k (c ∷ cs) = run (keyboard_irq_handler k c) cs

pop_lem : (c : ℕ) (q : List ℕ) → pop (c ∷ q) ≡ (c, q)
unfolding pop
pop_lem c q = refl

-- What a call of keyboard_get_char returns: a key that is not 0, from a sound driver.
pub data Got : Option (ℕ × Keyboard) → Type 0 where
  got : (c : ℕ) (k : Keyboard) → c ≢ 0 → IsKeyboard k → Got (some (c, k))

get-Got : (k : Keyboard) → IsKeyboard k → contents k ≢ [] → Got (some (buffer_get k))
get-Got k i ne = let popped = contents-buffer_get k i.ring in go (contents k) refl popped
  where
    go :
        (q : List ℕ)
        → contents k ≡ q
        → ((buffer_get k).0, contents (buffer_get k).1) ≡ pop (contents k)
        → Got (some (buffer_get k))
    go [] e p = absurd (ne e)
    go (c ∷ q) e p =
        let p' : ((buffer_get k).0, contents (buffer_get k).1) ≡ pop (c ∷ q) = p ∙ ap pop e in
        let keys : IsTyped (c ∷ q) = subst IsTyped e i.keys in
        got (buffer_get k).0 (buffer_get k).1
          (λ z. keys.0 (sym (ap (λ (x : ℕ × List ℕ). x.0) (p' ∙ pop_lem c q)) ∙ z))
          record {
            ring = buffer_get-IsRing k i.ring;
            keys = subst IsTyped (sym (ap (λ (x : ℕ × List ℕ). x.1) (p' ∙ pop_lem c q))) keys.1;
          }

-- If the interrupts that arrive during the wait leave a key, then keyboard_get_char returns, and
-- what it returns is not 0.
pub get_char-Got :
    (k : Keyboard) (cs : List ℕ)
    → IsKeyboard k
    → contents (run k cs) ≢ []
    → Got (keyboard_get_char k cs)
unfolding keyboard_get_char run
get_char-Got k [] i ne = elim (Bool-cases (keyboard_has_key k)) [
  | inl e ↦ rw e (get-Got k i ne)
  | inr e ↦ absurd (ne ((has_key-contents k i.ring).0 e))
]
get_char-Got k (c ∷ cs) i ne = elim (Bool-cases (keyboard_has_key k)) [
  | inl e ↦ rw e (get-Got k i (λ z. true≢false (sym e ∙ (has_key-contents k i.ring).1 z)))
  | inr e ↦ rw e (get_char-Got (keyboard_irq_handler k c) cs (irq_handler-IsHandled k c i).sound ne)
]

caps_row : ℕ → Bool
caps_row m = bit_xor (bit_xor m mod_caps) mod_caps == m

caps_table : holds_below 256 caps_row ≡ true
unfolding holds_below caps_row
caps_table = refl

shift_row : ℕ → Bool
shift_row m = bit_and (bit_or m mod_shift) (bit_xor 255 mod_shift) == m - m % 2

shift_table : holds_below 256 shift_row ≡ true
unfolding holds_below shift_row
shift_table = refl

module _ (k : Keyboard) (plain : k.extended_key ≡ false) (byte : k.modifier_state < 256) where
  -- Typing Caps Lock twice gives the old modifiers, and typing either Shift key leaves Shift up
  -- and the other modifiers alone.
  pub modifiers-run :
      ((run k (0x3A ∷ 0xBA ∷ 0x3A ∷ 0xBA ∷ [])).modifier_state ≡ k.modifier_state)
      × ((run k (0x2A ∷ 0xAA ∷ [])).modifier_state ≡ k.modifier_state - k.modifier_state % 2)
      × ((run k (0x36 ∷ 0xB6 ∷ [])).modifier_state ≡ k.modifier_state - k.modifier_state % 2)
  unfolding run keyboard_irq_handler handle_scancode hold caps_row shift_row
  modifiers-run =
      let c = holds_below-lt 256 caps_row k.modifier_state caps_table byte in
      let s = holds_below-lt 256 shift_row k.modifier_state shift_table byte in
      let c' =
        (==_iff (bit_xor (bit_xor k.modifier_state mod_caps) mod_caps) k.modifier_state).0 c in
      let s' =
        (==_iff (bit_and (bit_or k.modifier_state mod_shift) (bit_xor 255 mod_shift))
            (k.modifier_state - k.modifier_state % 2)).0
          s in
      rw plain (c', s', s')
