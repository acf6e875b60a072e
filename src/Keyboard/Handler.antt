-- ===== src/Keyboard/Handler.antt =====
-- What an interrupt of the keyboard of src/drivers/keyboard.c does to the keys that wait.
use cgos.Base.{
  ℕ, ◌+◌, ◌≡◌, ◌≢◌, ◌⊎◌, inl, inr, refl, sym, ap, subst, ◌∙◌, Bool, true, false, not, ◌||◌, List,
  [], ◌∷◌, ◌++◌, arith, ltb, ◌==◌, if◌then◌else◌, length, Bool-cases, bit_and, bit_or, bit_xor,
  ℕ_discrete,
}
use cgos.Keyboard.{
  Keyboard, buffer_put, press_extended, hold, translate, press, handle_scancode,
  keyboard_irq_handler, mod_shift, mod_ctrl, mod_alt, mod_caps,
}
use cgos.Keyboard.Ring.{IsRing, contents, push, contents-buffer_put, buffer_put-IsRing}

-- `k` with other flags and the same ring.
abbrev pub flagged : Keyboard → ℕ → Bool → Keyboard
flagged k m e = record k { modifier_state = m; extended_key = e }

-- An interrupt changes flags, and then types at most one key, which is not 0.
pub data Handled (k k' : Keyboard) : Type 0 where
  quiet : (m : ℕ) (e : Bool) → k' ≡ flagged k m e → Handled k k'
  typed : (m : ℕ) (e : Bool) (c : ℕ) → c ≢ 0 → k' ≡ buffer_put (flagged k m e) c → Handled k k'

press-Handled : (k : Keyboard) (key : ℕ) → Handled k (press k key)
unfolding press
press-Handled k key = elim (ℕ_discrete (translate k.modifier_state key) 0) [
  | yes e ↦ quiet k.modifier_state k.extended_key (ground arith)
  | no ne ↦ typed k.modifier_state k.extended_key (translate k.modifier_state key) ne (ground arith)
]

extended-Handled :
    (k : Keyboard) (key : ℕ) → Handled k (press_extended (record k { extended_key = false }) key)
unfolding press_extended
extended-Handled k key = elim (Bool-cases (key == 0x48)) [
  | inl a ↦ typed k.modifier_state false 0x80 (omega arith) (rw a refl)
  | inr a ↦ elim (Bool-cases (key == 0x50)) [
    | inl b ↦ typed k.modifier_state false 0x81 (omega arith) (rw (a, b) refl)
    | inr b ↦ elim (Bool-cases (key == 0x4B)) [
      | inl c ↦ typed k.modifier_state false 0x82 (omega arith) (rw (a, b, c) refl)
      | inr c ↦ elim (Bool-cases (key == 0x4D)) [
        | inl d ↦ typed k.modifier_state false 0x83 (omega arith) (rw (a, b, c, d) refl)
        | inr d ↦ quiet k.modifier_state false (rw (a, b, c, d) refl)
      ]
    ]
  ]
]

hold-Handled : (k : Keyboard) (flag : ℕ) (released : Bool) → Handled k (hold k flag released)
unfolding hold
hold-Handled k flag true = quiet (bit_and k.modifier_state (bit_xor 255 flag)) k.extended_key refl
hold-Handled k flag false = quiet (bit_or k.modifier_state flag) k.extended_key refl

-- A branch on either side of a test.
branch : (k a b : Keyboard) (t : Bool) → Handled k a → Handled k b → Handled k (if t then a else b)
branch k a b true ha hb = ha
branch k a b false ha hb = hb

same-Handled : (k : Keyboard) → Handled k k
same-Handled k = quiet k.modifier_state k.extended_key refl

handle_scancode-Handled : (k : Keyboard) (scancode : ℕ) → Handled k (handle_scancode k scancode)
unfolding handle_scancode
handle_scancode-Handled k c =
    let released : Bool = not (bit_and c 0x80 == 0) in
    let key : ℕ = bit_and c 0x7F in
    branch k _ _ _ (quiet k.modifier_state true refl) (
      branch k _ _ k.extended_key
        (branch k _ _ released (quiet k.modifier_state false refl) (extended-Handled k key))
        (branch k _ _ (key == 0x2A || (key == 0x36)) (hold-Handled k mod_shift released) (
          branch k _ _ _ (hold-Handled k mod_ctrl released) (
            branch k _ _ _ (hold-Handled k mod_alt released) (
              branch k _ _ _
                (branch k _ _ released (same-Handled k)
                  (quiet (bit_xor k.modifier_state mod_caps) k.extended_key refl))
                (branch k _ _ released (same-Handled k) (press-Handled k key)))))))

-- No key of the queue is 0.
abbrev pub IsTyped : List ℕ → Type 0
IsTyped [] = Unit
IsTyped (c ∷ q) = (c ≢ 0) × IsTyped q

snoc-IsTyped : (q : List ℕ) (c : ℕ) → IsTyped q → c ≢ 0 → IsTyped (q ++ (c ∷ []))
snoc-IsTyped [] c t ne = (ne, tt)
snoc-IsTyped (x ∷ q) c t ne = (t.0, snoc-IsTyped q c t.1 ne)

push-IsTyped : (q : List ℕ) (c : ℕ) → IsTyped q → c ≢ 0 → IsTyped (push q c)
unfolding push
push-IsTyped q c t ne = elim (Bool-cases (ltb (length q) 63)) [
  | inl e ↦ rw e (snoc-IsTyped q c t ne)
  | inr e ↦ rw e t
]

-- The driver's invariant: a sound ring of keys that are not 0.
pub record IsKeyboard (k : Keyboard) : Type 0 where
  pub ring : IsRing k
  pub keys : IsTyped (contents k)

-- The interrupt's outcome: the waiting keys stay, or gain one at their end.
pub record IsHandled (k k' : Keyboard) : Type 0 where
  pub sound : IsKeyboard k'
  pub gained :
      (contents k' ≡ contents k) ⊎ ((c : ℕ) × ((c ≢ 0) × (contents k' ≡ push (contents k) c)))
  pub acknowledged : k'.eoi_count ≡ k.eoi_count + 1

flagged-IsRing : (k : Keyboard) (m : ℕ) (e : Bool) → IsRing k → IsRing (flagged k m e)
flagged-IsRing k m e r = record { sized = r.sized; head = r.head; tail = r.tail }

contents-flagged : (k : Keyboard) (m : ℕ) (e : Bool) → contents (flagged k m e) ≡ contents k
unfolding contents
contents-flagged k m e = refl

eoi_count-buffer_put : (k : Keyboard) (c : ℕ) → (buffer_put k c).eoi_count ≡ k.eoi_count
unfolding buffer_put
eoi_count-buffer_put k c = ground arith

abbrev acknowledge : Keyboard → Keyboard
acknowledge k = record k { eoi_count = k.eoi_count + 1 }

contents-acknowledge : (k : Keyboard) → contents (acknowledge k) ≡ contents k
unfolding contents
contents-acknowledge k = refl

acknowledge-IsRing : (k : Keyboard) → IsRing k → IsRing (acknowledge k)
acknowledge-IsRing k r = record { sized = r.sized; head = r.head; tail = r.tail }

Handled-IsHandled : (k k' : Keyboard) → IsKeyboard k → Handled k k' → IsHandled k (acknowledge k')
Handled-IsHandled k k' i (quiet m e same) =
    let r = subst IsRing (sym same) (flagged-IsRing k m e i.ring) in
    let q = contents-acknowledge k' ∙ ap contents same ∙ contents-flagged k m e in
    record {
      sound = record { ring = acknowledge-IsRing k' r; keys = subst IsTyped (sym q) i.keys };
      gained = inl q;
      acknowledged = ap (λ (b : Keyboard). b.eoi_count + 1) same;
    }
Handled-IsHandled k k' i (typed m e c ne same) =
    let f = flagged-IsRing k m e i.ring in
    let r = subst IsRing (sym same) (buffer_put-IsRing (flagged k m e) f c) in
    let q =
      contents-acknowledge k'
      ∙ ap contents same
      ∙ contents-buffer_put (flagged k m e) f c
      ∙ ap (λ l. push l c) (contents-flagged k m e) in
    record {
      sound = record {
        ring = acknowledge-IsRing k' r;
        keys = subst IsTyped (sym q) (push-IsTyped (contents k) c i.keys ne);
      };
      gained = inr (c, (ne, q));
      acknowledged =
          ap (λ (b : Keyboard). b.eoi_count + 1) same
          ∙ ap (λ (n : ℕ). n + 1) (eoi_count-buffer_put (flagged k m e) c);
    }

-- An interrupt with any scan code, while the ring is sound and holds nonzero keys, leaves it so,
-- adds at most one key at the end of those that wait, and sends exactly one end of interrupt.
pub irq_handler-IsHandled :
    (k : Keyboard) (scancode : ℕ) → IsKeyboard k → IsHandled k (keyboard_irq_handler k scancode)
unfolding keyboard_irq_handler
irq_handler-IsHandled k scancode i =
    Handled-IsHandled k (handle_scancode k scancode) i (handle_scancode-Handled k scancode)
