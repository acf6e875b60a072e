-- ===== src/Fat/Table/Free.antt =====
-- The loop of src/fs/fat16.c that frees a chain of clusters: it ends on every table, also where the
-- chain is a cycle, and frees the clusters that the chain reaches and no other.
use cgos.Base.{
  ℕ, zero, suc, ◌+◌, ◌*◌, ◌<◌, ◌≤◌, ◌≡◌, refl, ◌∙◌, ap, ◌≢◌, true, false, ◌==◌, arith, ◌⊎◌, inl,
  inr, Bool-cases, ==_iff, subst, sym,
}
use cgos.Fat.Disk.{Fat, done}
use cgos.Fat.Disk.Sectors.{sector}
use cgos.Fat.Table.{in_chain, free_chain}
use cgos.Fat.Table.Entries.{
  IsSound, InTable, entry, recalled, recalled-IsSound, read_entry-done, write_entry-done, sector_no,
}
use cgos.Fat.Table.Chain.{
  OnChain, here, next, IsClosed, OnChain-starts, used, used-lt, tables_end, freed, in_recalled,
  freed-IsSound, InTable-freed, entry-freed, OnChain-freed, freed-OnChain, freed_fs, same_span,
  same_end, same_no, far-freed, buffer-freed, from_freed, freed-IsClosed,
}

-- What the loop leaves: the clusters of the chain are free, and no other entry has changed.
pub record IsFreed (s : Fat) (c : ℕ) (t : Fat) : Type 0 where
  pub sound : IsSound t
  pub same_fs : t.fs ≡ s.fs
  pub free : (d : ℕ) → InTable s d → OnChain s c d → entry t d ≡ 0
  pub others : (d : ℕ) → InTable s d → (OnChain s c d → ⊥) → entry t d ≡ entry s d
  pub only_free : (d : ℕ) → InTable s d → (entry t d ≡ 0) ⊎ (entry t d ≡ entry s d)
  pub stays : in_chain c ≡ false → t ≡ s
  pub buffer :
      in_chain c ≡ true
      → (d : ℕ) × OnChain s c d × InTable s d × (t.sector_buffer ≡ sector t (sector_no s d))
  pub far : (x : ℕ) → tables_end s ≤ x → sector t x ≡ sector s x

nothing-IsFreed : (s : Fat) (c : ℕ) → IsSound s → in_chain c ≡ false → IsFreed s c s
nothing-IsFreed s c h stop = record {
  sound = h;
  same_fs = refl;
  free = λ d l chain. absurd (cc (stop, OnChain-starts chain));
  others = λ d l n. refl;
  only_free = λ d l. inr refl;
  stays = λ _. refl;
  buffer = λ go. absurd (cc (go, stop));
  far = λ x p. refl;
}

module _ (s : Fat) (c : ℕ) (h : IsSound s) (k : InTable s c) (closed : IsClosed s)
    (chained : in_chain c ≡ true) (t : Fat) where
  cleared : (d : ℕ) → InTable s d → IsFreed (freed s c) (entry s c) t → (d ≡ c) → entry t d ≡ 0
  cleared d l rest e =
      ground (arith, rest.only_free d (InTable-freed s c h k d l), entry-freed s c h k d l)

  freed_on :
      (d : ℕ) → InTable s d → IsFreed (freed s c) (entry s c) t → OnChain s c d → entry t d ≡ 0
  freed_on d l rest chain = elim (OnChain-freed s c h k closed k chain) [
    | inl e ↦ cleared d l rest e
    | inr (inl after) ↦ rest.free d (InTable-freed s c h k d l) after
    | inr (inr (far, _)) ↦ absurd (far refl)
  ]

  kept_off :
      (d : ℕ)
      → InTable s d
      → IsFreed (freed s c) (entry s c) t
      → (OnChain s c d → ⊥)
      → entry t d ≡ entry s d
  kept_off d l rest off =
      let apart : (d == c) ≡ false = not_first (Bool-cases (d == c)) in
      rest.others d (InTable-freed s c h k d l) (λ chain.
        off (next chained (freed-OnChain s c h k closed (closed c k (OnChain-starts chain)) chain)))
      ∙ entry-freed s c h k d l
      ∙ rw apart
    where
      not_first : ((d == c) ≡ true) ⊎ ((d == c) ≡ false) → (d == c) ≡ false
      not_first (inl e) =
          absurd (off (subst (λ y. OnChain s c y) (sym ((==_iff d c).0 e)) (here chained)))
      not_first (inr e) = e

  last_buffer :
      IsFreed (freed s c) (entry s c) t
      → (in_chain (entry s c) ≡ true) ⊎ (in_chain (entry s c) ≡ false)
      → (d : ℕ) × OnChain s c d × InTable s d × (t.sector_buffer ≡ sector t (sector_no s d))
  last_buffer rest (inl more) =
      let (d, chain, l, e) = rest.buffer more in
      (
        d,
        next chained (freed-OnChain s c h k closed (closed c k more) chain),
        from_freed s c h k d l,
        e ∙ ap (sector t) (same_no s c h k d),
      )
  last_buffer rest (inr stop) = (
    c,
    here chained,
    k,
    subst (λ u. u.sector_buffer ≡ sector u (sector_no s c)) (sym (rest.stays stop))
        (buffer-freed s c h k),
  )

  one_round : IsFreed (freed s c) (entry s c) t → IsFreed s c t
  one_round rest = record {
    sound = rest.sound;
    same_fs = rest.same_fs ∙ freed_fs s c h k;
    free = λ d l chain. freed_on d l rest chain;
    others = λ d l off. kept_off d l rest off;
    only_free = λ d l.
        ground (arith, rest.only_free d (InTable-freed s c h k d l), entry-freed s c h k d l);
    stays = λ stop. absurd (cc (chained, stop));
    buffer = λ _. last_buffer rest (Bool-cases (in_chain (entry s c)));
    far = λ x p. rest.far x (subst (λ (n : ℕ). n ≤ x) (same_end s c h k) p) ∙ far-freed s c h k x p;
  }

-- The rounds that the loop needs: one for each entry in use, and two more.
abbrev pub in_use : Fat → ℕ
in_use s = used (entry s) (256 * s.fs.fat_size)

in_use-freed :
    (s : Fat) (c : ℕ) → IsSound s → InTable s c → entry s c ≢ 0 → in_use (freed s c) < in_use s
in_use-freed s c h k nz =
    subst (λ (n : ℕ). used (entry (freed s c)) n < in_use s) (same_span s c h k)
      (used-lt (entry s) (entry (freed s c)) (256 * s.fs.fat_size) c
        (λ d l. ground (arith, entry-freed s c h k d l)) k (ground (arith, entry-freed s c h k c k))
        nz)

free_round :
    (fuel c : ℕ) (s : Fat)
    → IsSound s
    → InTable s c
    → in_chain c ≡ true
    → free_chain (suc fuel) c s ≡ free_chain fuel (entry s c) (freed s c)
unfolding free_chain
free_round fuel c s h k chained = rw (
  chained,
  read_entry-done s c h k,
  write_entry-done (recalled s c) c 0 (recalled-IsSound s c h) (in_recalled s c h k c k),
)

free_stop : (fuel c : ℕ) (s : Fat) → in_chain c ≡ false → free_chain (suc fuel) c s ≡ (done tt, s)
unfolding free_chain
free_stop fuel c s stop = rw stop

last_round :
    (fuel c : ℕ) (s : Fat)
    → IsSound s
    → IsClosed s
    → InTable s c
    → in_chain c ≡ true
    → entry s c ≡ 0
    → 1 ≤ fuel
    → (t : Fat) × (free_chain (suc fuel) c s ≡ (done tt, t)) × IsFreed s c t
last_round zero c s h closed l chained z enough = absurd (omega arith)
last_round (suc fuel) c s h closed l chained z enough =
    let stop : in_chain (entry s c) ≡ false = rw z in
    (
      freed s c,
      free_round (suc fuel) c s h l chained ∙ free_stop fuel (entry s c) (freed s c) stop,
      one_round s c h l closed chained (freed s c)
          (nothing-IsFreed (freed s c) (entry s c) (freed-IsSound s c h l) stop),
    )

-- On a sound volume whose entries name clusters of the table, and with more fuel than entries in use
-- and one more, the loop that frees a chain ends, also where the chain is a cycle. The clusters that
-- the chain reaches are free then, and no other entry has changed.
pub free_chain-IsFreed :
    (fuel c : ℕ) (s : Fat)
    → IsSound s
    → IsClosed s
    → (in_chain c ≡ true → InTable s c)
    → in_use s + 1 < fuel
    → (t : Fat) × (free_chain fuel c s ≡ (done tt, t)) × IsFreed s c t
free_chain-IsFreed zero c s h closed k enough = absurd (omega arith)
free_chain-IsFreed (suc fuel) c s h closed k enough = elim (Bool-cases (in_chain c)) [
  | inr stop ↦ (s, free_stop fuel c s stop, nothing-IsFreed s c h stop)
  | inl chained ↦
      let l = k chained in
      elim (Bool-cases (entry s c == 0)) [
        | inr more ↦
            let less = in_use-freed s c h l (λ z. ground arith) in
            let rest =
              free_chain-IsFreed fuel (entry s c) (freed s c) (freed-IsSound s c h l)
                (freed-IsClosed s c h l closed)
                (λ ch. InTable-freed s c h l (entry s c) (closed c l ch)) (omega arith) in
            (
              rest.0,
              free_round fuel c s h l chained ∙ rest.1,
              one_round s c h l closed chained rest.0 rest.2,
            )
        | inl last ↦ last_round fuel c s h closed l chained ((==_iff _ _).0 last) (omega arith)
      ]
]

pub used_bound : (f : ℕ → ℕ) (n : ℕ) → used f n ≤ n
used_bound f zero = omega arith
used_bound f (suc n) = ground (arith, used_bound f n)
