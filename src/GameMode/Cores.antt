-- ===== src/GameMode/Cores.antt =====
-- Which cores are allocated.
use whisez_os.Prelude.{
  ℕ, zero, suc, ◌+◌, ◌-◌, ◌≤◌, ◌<◌, ◌≡◌, ◌≢◌, ◌⊎◌, inl, inr, refl, ap, ◌∙◌, sym, true, false, not,
  ◌&&◌, ◌||◌, Option, some, arith, leb, ◌==◌, bit_or, ◌^◌, if◌then◌else◌, Bool-cases, Option-cases,
  ℕ_discrete, subst,
}
use whisez_os.Prelude.Bits.{bit, has_bit, has_bit-bit, bit-bit_or, bit-pow, bit_zero}
use whisez_os.GameMode.{allocate_from, allocate_physical_cores}

-- How many of the cores below `n` a mask holds.
abbrev pub count_cores : ℕ → ℕ → ℕ
count_cores zero mask = 0
count_cores (suc n) mask = (if bit mask n then 1 else 0) + count_cores n mask

bit-take : (mask k i : ℕ) → bit (bit_or mask (2 ^ k)) i ≡ (bit mask i || (k == i))
bit-take mask k i = bit-bit_or mask (2 ^ k) i ∙ ap (λ b. bit mask i || b) (bit-pow k i)

count_cores-above :
    (n mask k : ℕ) → n ≤ k → count_cores n (bit_or mask (2 ^ k)) ≡ count_cores n mask
count_cores-above zero mask k h = refl
count_cores-above (suc n) mask k h =
    ground (arith, bit-take mask k n, count_cores-above n mask k (omega arith))

-- A core that is taken counts for one more, if it is below the bound and was not held.
count_cores-take :
    (n mask k : ℕ)
    → k < n
    → bit mask k ≡ false
    → count_cores n (bit_or mask (2 ^ k)) ≡ count_cores n mask + 1
count_cores-take zero mask k h free = absurd (omega arith)
count_cores-take (suc n) mask k h free =
    ground (arith, bit-take mask k n, count_cores-above n mask k, count_cores-take n mask k)

count_cores-all :
    (n mask : ℕ)
    → bit mask 0 ≡ false
    → ((i : ℕ) → 0 < i → i < n → bit mask i ≡ true)
    → count_cores n mask ≡ n - 1
count_cores-all zero mask z all = omega arith
count_cores-all (suc zero) mask z all = ground arith
count_cores-all (suc (suc n)) mask z all = ground (
  arith,
  all (suc n) (omega arith) (omega arith),
  count_cores-all (suc n) mask z (λ i l u. all i l (omega arith)),
)

none_held : (n : ℕ) → count_cores n 0 ≡ 0
none_held zero = refl
none_held (suc n) = ground (arith, bit_zero n, none_held n)

-- The siblings are cores of the machine, in pairs.
pub record IsTopology (sibling : ℕ → Option ℕ) (total : ℕ) : Type 0 where
  pub in_range : (i s : ℕ) → sibling i ≡ some s → s < total
  pub symmetric : (i s : ℕ) → sibling i ≡ some s → sibling s ≡ some i

-- With a core its sibling is held, unless that is core 0.
abbrev pub IsWhole : (ℕ → Option ℕ) → ℕ → Type 0
IsWhole sibling mask =
    (i s : ℕ) → bit mask i ≡ true → sibling i ≡ some s → s ≢ 0 → bit mask s ≡ true

-- What is held with fewer than the cores above `k` still to come.
record Partial (sibling : ℕ → Option ℕ) (total k mask assigned : ℕ) : Type 0 where
  zero_free : bit mask 0 ≡ false
  counted : count_cores total mask ≡ assigned
  above : (i : ℕ) → k < i → i < total → bit mask i ≡ true
  whole : IsWhole sibling mask

pub record IsAllocation (sibling : ℕ → Option ℕ) (total count mask : ℕ) : Type 0 where
  pub zero_free : bit mask 0 ≡ false
  pub enough : count ≤ count_cores total mask
  pub bounded : count_cores total mask ≤ count + 1
  pub whole : IsWhole sibling mask

module _ (sibling : ℕ → Option ℕ) (total : ℕ) (top : IsTopology sibling total) where
  siblings_kept :
      (mask mask' k : ℕ)
      → IsWhole sibling mask
      → ((i : ℕ) → bit mask i ≡ true → bit mask' i ≡ true)
      → bit mask' k ≡ true
      → ((t : ℕ) → sibling k ≡ some t → t ≢ 0 → bit mask' t ≡ true)
      → ((i : ℕ) → bit mask' i ≡ true → (bit mask i ≡ true) ⊎ (i ≡ k) ⊎ (sibling k ≡ some i))
      → IsWhole sibling mask'
  siblings_kept mask mask' k w grows has own cases i s held si ne = elim (cases i held) [
    | inl old ↦ grows s (w i s old si ne)
    | inr (inl same) ↦ own s (ap sibling (sym same) ∙ si) ne
    | inr (inr pair) ↦ subst (λ t. bit mask' t ≡ true) (back (top.symmetric k i pair)) has
  ]
    where
      back : sibling i ≡ some k → k ≡ s
      back e = cc

  siblings_alone :
      (mask k : ℕ)
      → IsWhole sibling mask
      → ((t : ℕ) → sibling k ≡ some t → t ≢ 0 → bit (bit_or mask (2 ^ k)) t ≡ true)
      → IsWhole sibling (bit_or mask (2 ^ k))
  siblings_alone mask k w own =
      siblings_kept mask (bit_or mask (2 ^ k)) k w (λ i h. ground (arith, bit-take mask k i))
        (ground (arith, bit-take mask k k)) own
        (λ i h. elim (ℕ_discrete k i) [
          | yes same ↦ inr (inl (sym same))
          | no other ↦ inl (ground (arith, bit-take mask k i))
        ])

  siblings_pair :
      (mask k t : ℕ)
      → IsWhole sibling mask
      → sibling k ≡ some t
      → IsWhole sibling (bit_or (bit_or mask (2 ^ k)) (2 ^ t))
  siblings_pair mask k t w e =
      siblings_kept mask (bit_or (bit_or mask (2 ^ k)) (2 ^ t)) k w
        (λ i h. ground (arith, bit-take mask k i, bit-take (bit_or mask (2 ^ k)) t i))
        (ground (arith, bit-take mask k k, bit-take (bit_or mask (2 ^ k)) t k))
        (λ u f ne. ground (arith, bit-take (bit_or mask (2 ^ k)) t u))
        (λ i h. elim (ℕ_discrete k i) [
          | yes same ↦ inr (inl (sym same))
          | no other ↦ elim (ℕ_discrete t i) [
            | yes pair ↦ inr (inr (e ∙ ap some pair))
            | no third ↦ inl (ground (arith, bit-take mask k i, bit-take (bit_or mask (2 ^ k)) t i))
          ]
        ])

  -- One round of the loop that takes a core alone, and one that takes it with its sibling.
  round_alone :
      (k mask n : ℕ)
      → suc k < total
      → has_bit mask (suc k) ≡ false
      → ((t : ℕ) → sibling (suc k) ≡ some t → t ≢ 0 → bit (bit_or mask (2 ^ suc k)) t ≡ true)
      → Partial sibling total (suc k) mask n
      → Partial sibling total k (bit_or mask (2 ^ suc k)) (n + 1)
  round_alone k mask n h free own p = record {
    zero_free = ground (arith, bit-take mask (suc k) 0, p.zero_free);
    counted =
        ground (arith, count_cores-take total mask (suc k), has_bit-bit mask (suc k), p.counted);
    above = λ i l u. elim (ℕ_discrete (suc k) i) [
      | yes same ↦ ground (arith, bit-take mask (suc k) i)
      | no other ↦ ground (arith, bit-take mask (suc k) i, p.above i)
    ];
    whole = siblings_alone mask (suc k) p.whole own;
  }

  round_pair :
      (k mask n t : ℕ)
      → suc k < total
      → has_bit mask (suc k) ≡ false
      → sibling (suc k) ≡ some t
      → t ≢ 0
      → has_bit (bit_or mask (2 ^ suc k)) t ≡ false
      → Partial sibling total (suc k) mask n
      → Partial sibling total k (bit_or (bit_or mask (2 ^ suc k)) (2 ^ t)) (n + 2)
  round_pair k mask n t h free e ne fresh p =
      let taken = bit_or mask (2 ^ suc k) in
      record {
        zero_free = ground (arith, bit-take mask (suc k) 0, bit-take taken t 0, p.zero_free);
        counted = ground (
          arith,
          count_cores-take total mask (suc k),
          has_bit-bit mask (suc k),
          count_cores-take total taken t (top.in_range (suc k) t e),
          has_bit-bit taken t,
          p.counted,
        );
        above = λ i l u. elim (ℕ_discrete (suc k) i) [
          | yes same ↦ ground (arith, bit-take mask (suc k) i, bit-take taken t i)
          | no other ↦ ground (arith, bit-take mask (suc k) i, bit-take taken t i, p.above i)
        ];
        whole = siblings_pair mask (suc k) t p.whole e;
      }

  allocate_from-IsAllocation :
      (count k mask n : ℕ)
      → k < total
      → count < total
      → n ≤ count + 1
      → Partial sibling total k mask n
      → IsAllocation sibling total count (allocate_from sibling count k mask n)
  unfolding allocate_from
  allocate_from-IsAllocation count zero mask n h enough small p = record {
    zero_free = p.zero_free;
    enough = omega (arith, count_cores-all total mask p.zero_free p.above);
    bounded = omega (arith, p.counted);
    whole = p.whole;
  }
  allocate_from-IsAllocation count (suc k) mask n h enough small p =
      let taken : ℕ = bit_or mask (2 ^ suc k) in
      elim (Bool-cases (leb count n)) [
        | inl done ↦
            let stop : allocate_from sibling count (suc k) mask n ≡ mask = ground arith in
            subst (λ r. IsAllocation sibling total count r) (sym stop)
              (record {
                zero_free = p.zero_free;
                enough = ground (arith, p.counted);
                bounded = omega (arith, p.counted);
                whole = p.whole;
              })
        | inr more ↦ elim (Bool-cases (has_bit mask (suc k))) [
          | inl held ↦
              let skip : allocate_from sibling count (suc k) mask n
                  ≡ allocate_from sibling count k mask n =
                ground arith in
              subst (λ r. IsAllocation sibling total count r) (sym skip)
                (allocate_from-IsAllocation count k mask n (omega arith) enough small (record {
                  zero_free = p.zero_free;
                  counted = p.counted;
                  above = λ i l u. elim (ℕ_discrete (suc k) i) [
                    | yes same ↦ ground (arith, has_bit-bit mask (suc k), ap (bit mask) same)
                    | no other ↦ p.above i (omega arith) u
                  ];
                  whole = p.whole;
                }))
          | inr free ↦ elim (Option-cases (sibling (suc k))) [
            | inl alone ↦
                let step : allocate_from sibling count (suc k) mask n
                    ≡ allocate_from sibling count k taken (n + 1) =
                  ground arith in
                subst (λ r. IsAllocation sibling total count r) (sym step)
                  (allocate_from-IsAllocation count k taken (n + 1) (omega arith) enough
                    (ground arith)
                    (round_alone k mask n h free (λ t e ne. absurd (ground arith)) p))
            | inr (t, pair) ↦ elim (Bool-cases (not (t == 0) && not (has_bit taken t))) [
              | inl both ↦
                  let step : allocate_from sibling count (suc k) mask n
                      ≡ allocate_from sibling count k (bit_or taken (2 ^ t)) (n + 2) =
                    ground arith in
                  subst (λ r. IsAllocation sibling total count r) (sym step)
                    (allocate_from-IsAllocation count k (bit_or taken (2 ^ t)) (n + 2) (omega arith)
                      enough (ground arith)
                      (round_pair k mask n t h free pair (ground arith) (ground arith) p))
              | inr one ↦
                  let step : allocate_from sibling count (suc k) mask n
                      ≡ allocate_from sibling count k taken (n + 1) =
                    ground arith in
                  subst (λ r. IsAllocation sibling total count r) (sym step)
                    (allocate_from-IsAllocation count k taken (n + 1) (omega arith) enough
                      (ground arith)
                      (round_alone k mask n h free (λ u e ne. ground (arith, has_bit-bit taken t))
                        p))
            ]
          ]
        ]
      ]

  -- On a topology of pairs, with fewer cores asked for than there are: core 0 is never allocated, the
  -- cores allocated are as many as were asked for, or one more, and with each its sibling is allocated,
  -- unless that is core 0.
  pub allocate_physical_cores-IsAllocation :
      (count : ℕ)
      → count < total
      → IsAllocation sibling total count (allocate_physical_cores sibling count total)
  unfolding allocate_physical_cores
  allocate_physical_cores-IsAllocation count h =
      allocate_from-IsAllocation count (total - 1) 0 0 (omega arith) h (omega arith) (record {
        zero_free = bit_zero 0;
        counted = none_held total;
        above = λ i l u. absurd (omega arith);
        whole = λ i s held e ne. absurd (ground (arith, bit_zero i));
      })
