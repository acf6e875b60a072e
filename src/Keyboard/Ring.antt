-- ===== src/Keyboard/Ring.antt =====
-- The ring of src/drivers/keyboard.c is a bounded queue.
use cgos.Base.{
  ℕ, zero, suc, ◌+◌, ◌-◌, ◌%◌, ◌<◌, ◌≡◌, ◌≢◌, ◌↔◌, refl, sym, ap, subst, ◌∙◌, false, List, [], ◌∷◌,
  ◌++◌, arith, ltb, if◌then◌else◌, get_or, set, length, length-set, get_or-set_self, get_or-set_ne,
  ℕ_discrete,
}
use cgos.Keyboard.{Keyboard, key_buffer_size, buffer_put, buffer_get, keyboard_has_key}

-- The `n` cells from `t` on.
unfoldable pub cells : List ℕ → ℕ → ℕ → List ℕ
cells buffer t zero = []
cells buffer t (suc n) = get_or buffer (t % key_buffer_size) 0 ∷ cells buffer (t + 1) n

abbrev pub count : Keyboard → ℕ
count k = (k.buffer_head + key_buffer_size - k.buffer_tail) % key_buffer_size

-- The keys typed and not yet read, oldest first.
unfoldable pub contents : Keyboard → List ℕ
unfolding cells
contents k = cells k.key_buffer k.buffer_tail (count k)

pub record IsRing (k : Keyboard) : Type 0 where
  pub sized : length k.key_buffer ≡ key_buffer_size
  pub head : k.buffer_head < key_buffer_size
  pub tail : k.buffer_tail < key_buffer_size

-- The abstract queue keeps one key fewer than the ring has cells, and drops what does not fit.
unfoldable pub push : List ℕ → ℕ → List ℕ
push q c = if ltb (length q) 63 then q ++ (c ∷ []) else q

unfoldable pub pop : List ℕ → ℕ × List ℕ
pop [] = (0, [])
pop (c ∷ q) = (c, q)

length-cells : (buffer : List ℕ) (t n : ℕ) → length (cells buffer t n) ≡ n
unfolding cells
length-cells buffer t zero = refl
length-cells buffer t (suc n) = ap suc (length-cells buffer (t + 1) n)

-- A start counts only modulo the size.
cells_mod :
    (buffer : List ℕ) (t u n : ℕ)
    → t % key_buffer_size ≡ u % key_buffer_size
    → cells buffer t n ≡ cells buffer u n
unfolding cells
cells_mod buffer t u zero e = refl
cells_mod buffer t u (suc n) e = rw (e, cells_mod buffer (t + 1) (u + 1) n (omega arith))

-- A write outside the cells changes none of them.
cells-set :
    (buffer : List ℕ) (i c u m : ℕ)
    → ((d : ℕ) → d < m → i ≢ (u + d) % key_buffer_size)
    → cells (set buffer i c) u m ≡ cells buffer u m
unfolding cells
cells-set buffer i c u zero out = refl
cells-set buffer i c u (suc m) out =
    let here : i ≢ u % key_buffer_size = λ e. out 0 (omega arith) (omega (arith, e)) in
    let rest =
      cells-set buffer i c (u + 1) m (λ d h e. out (d + 1) (omega arith) (omega (arith, e))) in
    rw (get_or-set_ne buffer i (u % key_buffer_size) c 0 here, rest) refl

cells_snoc :
    (buffer : List ℕ) (t n : ℕ)
    → cells buffer t (suc n)
      ≡ cells buffer t n ++ (get_or buffer ((t + n) % key_buffer_size) 0 ∷ [])
unfolding cells
cells_snoc buffer t zero = ap (λ (i : ℕ). get_or buffer (i % key_buffer_size) 0 ∷ []) (omega arith)
cells_snoc buffer t (suc n) =
    let rest = cells_snoc buffer (t + 1) n in
    let at : (t + 1 + n) % key_buffer_size ≡ (t + suc n) % key_buffer_size = omega arith in
    ap (λ q. get_or buffer (t % key_buffer_size) 0 ∷ q)
      (rest ∙ ap (λ (i : ℕ). cells buffer (t + 1) n ++ (get_or buffer i 0 ∷ [])) at)

push_full : (q : List ℕ) (c : ℕ) → length q ≡ 63 → push q c ≡ q
unfolding push
push_full q c e = ground arith

push_room : (q : List ℕ) (c : ℕ) → length q < 63 → push q c ≡ q ++ (c ∷ [])
unfolding push
push_room q c h = ground arith

module _ (k : Keyboard) (r : IsRing k) where
  abbrev written : ℕ → Keyboard
  written c = record k {
    key_buffer = set k.key_buffer k.buffer_head c;
    buffer_head = (k.buffer_head + 1) % key_buffer_size;
  }

  abbrev read : Keyboard
  read = record k { buffer_tail = (k.buffer_tail + 1) % key_buffer_size }

  put_full : (c : ℕ) → (k.buffer_head + 1) % key_buffer_size ≡ k.buffer_tail → buffer_put k c ≡ k
  unfolding buffer_put
  put_full c e = ground arith

  put_room :
      (c : ℕ) → (k.buffer_head + 1) % key_buffer_size ≢ k.buffer_tail → buffer_put k c ≡ written c
  unfolding buffer_put
  put_room c e = ground arith

  get_none : k.buffer_tail ≡ k.buffer_head → buffer_get k ≡ (0, k)
  unfolding buffer_get
  get_none e = ground arith

  get_some :
      k.buffer_tail ≢ k.buffer_head → buffer_get k ≡ (get_or k.key_buffer k.buffer_tail 0, read)
  unfolding buffer_get
  get_some e = ground arith

  contents-written :
      (c : ℕ)
      → (k.buffer_head + 1) % key_buffer_size ≢ k.buffer_tail
      → contents (written c) ≡ contents k ++ (c ∷ [])
  unfolding contents
  contents-written c room =
      let h = r.head in
      let t = r.tail in
      let l = r.sized in
      let more : count (written c) ≡ suc (count k) = omega arith in
      let at : (k.buffer_tail + count k) % key_buffer_size ≡ k.buffer_head = omega arith in
      let new : get_or (set k.key_buffer k.buffer_head c)
            ((k.buffer_tail + count k) % key_buffer_size) 0
          ≡ c =
        ap (λ (i : ℕ). get_or (set k.key_buffer k.buffer_head c) i 0) at
        ∙ get_or-set_self k.key_buffer k.buffer_head c 0 (omega arith) in
      let old =
        cells-set k.key_buffer k.buffer_head c k.buffer_tail (count k) (λ d lt e. omega arith) in
      ap (λ (n : ℕ). cells (set k.key_buffer k.buffer_head c) k.buffer_tail n) more
      ∙ cells_snoc (set k.key_buffer k.buffer_head c) k.buffer_tail (count k)
      ∙ ap
          (λ q.
            q
            ++ (get_or (set k.key_buffer k.buffer_head c)
                  ((k.buffer_tail + count k) % key_buffer_size) 0
                ∷ []))
          old
      ∙ ap (λ (x : ℕ). cells k.key_buffer k.buffer_tail (count k) ++ (x ∷ [])) new

  contents-length : length (contents k) ≡ count k
  unfolding contents
  contents-length = length-cells k.key_buffer k.buffer_tail (count k)

  contents_empty : k.buffer_tail ≡ k.buffer_head → contents k ≡ []
  unfolding contents cells
  contents_empty e =
      let h = r.head in
      let none_left : count k ≡ 0 = omega arith in
      ap (λ (n : ℕ). cells k.key_buffer k.buffer_tail n) none_left

  contents_next :
      k.buffer_tail ≢ k.buffer_head
      → contents k ≡ get_or k.key_buffer k.buffer_tail 0 ∷ contents read
  unfolding contents cells
  contents_next ne =
      let h = r.head in
      let t = r.tail in
      let more : count k ≡ suc (count read) = omega arith in
      let at : k.buffer_tail % key_buffer_size ≡ k.buffer_tail = omega arith in
      ap (λ (n : ℕ). cells k.key_buffer k.buffer_tail n) more
      ∙ ap
          (λ (i : ℕ). get_or k.key_buffer i 0 ∷ cells k.key_buffer (k.buffer_tail + 1) (count read))
          at
      ∙ ap (λ q. get_or k.key_buffer k.buffer_tail 0 ∷ q)
          (cells_mod k.key_buffer (k.buffer_tail + 1) ((k.buffer_tail + 1) % key_buffer_size)
            (count read) (omega arith))

  -- The ring holds at most 63 keys, and buffer_put adds a key at the end of them, or drops it when
  -- there are 63.
  pub contents-buffer_put : (c : ℕ) → contents (buffer_put k c) ≡ push (contents k) c
  contents-buffer_put c =
      let h = r.head in
      let t = r.tail in
      elim (ℕ_discrete ((k.buffer_head + 1) % key_buffer_size) k.buffer_tail) [
        | yes full ↦
            ap contents (put_full c full)
            ∙ sym (push_full (contents k) c (omega (arith, contents-length)))
        | no room ↦
            ap contents (put_room c room)
            ∙ contents-written c room
            ∙ sym (push_room (contents k) c (omega (arith, contents-length)))
      ]

  pub buffer_put-IsRing : (c : ℕ) → IsRing (buffer_put k c)
  buffer_put-IsRing c = elim (ℕ_discrete ((k.buffer_head + 1) % key_buffer_size) k.buffer_tail) [
    | yes full ↦ subst IsRing (sym (put_full c full)) r
    | no room ↦ subst IsRing (sym (put_room c room)) record {
      sized = length-set k.key_buffer k.buffer_head c ∙ r.sized;
      head = omega arith;
      tail = r.tail;
    }
  ]

  -- buffer_get takes the oldest key, or returns 0 and changes nothing when there is none.
  pub contents-buffer_get : ((buffer_get k).0, contents (buffer_get k).1) ≡ pop (contents k)
  unfolding pop
  contents-buffer_get = elim (ℕ_discrete k.buffer_tail k.buffer_head) [
    | yes e ↦
        ap (λ (p : ℕ × Keyboard). (p.0, contents p.1)) (get_none e)
        ∙ ap (λ q. (0, q)) (contents_empty e)
        ∙ ap pop (sym (contents_empty e))
    | no ne ↦
        ap (λ (p : ℕ × Keyboard). (p.0, contents p.1)) (get_some ne)
        ∙ ap pop (sym (contents_next ne))
  ]

  pub buffer_get-IsRing : IsRing (buffer_get k).1
  buffer_get-IsRing = elim (ℕ_discrete k.buffer_tail k.buffer_head) [
    | yes e ↦ subst (λ (p : ℕ × Keyboard). IsRing p.1) (sym (get_none e)) r
    | no ne ↦
        subst (λ (p : ℕ × Keyboard). IsRing p.1) (sym (get_some ne))
          record { sized = r.sized; head = r.head; tail = omega arith }
  ]

  -- keyboard_has_key says whether there is a key to read.
  pub has_key-contents : (keyboard_has_key k ≡ false) ↔ (contents k ≡ [])
  unfolding keyboard_has_key
  has_key-contents = elim (ℕ_discrete k.buffer_tail k.buffer_head) [
    | yes e ↦ (λ h. contents_empty e, λ h. ground arith)
    | no ne ↦ (
      λ h. absurd (ne (ground arith)),
      λ h. absurd (
          ne (
            let z : length (contents k) ≡ 0 = ap length h in
            let a = r.head in let b = r.tail in omega (arith, contents-length, z))),
    )
  ]
