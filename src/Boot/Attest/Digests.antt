-- ===== src/Boot/Attest/Digests.antt =====
-- The comparison of digests, and the verification of an image.
use whisez_os.Prelude.{
  ◌≢◌, ap₂, subst, ℕ, zero, suc, ◌+◌, ◌<◌, ◌≡◌, ◌↔◌, ◌⊎◌, inl, inr, refl, ap, sym, ◌∙◌, true,
  Option, none, some, List, [], ◌∷◌, arith, length, get_or, bit_or, bit_xor, Bool-cases,
}
use whisez_os.Prelude.Bits.{or_eq_zero, eq_of_xor, xor_self}
use whisez_os.Prelude.Results.{ok, err}
use whisez_os.Boot.Attest.{
  ManifestEntry, tampered, no_digest, image_missing, image_modified, verify_image, differences,
  digests_equal, digest_len,
}

plus_zero : (i : ℕ) → i + 0 ≡ i
plus_zero i = omega arith

plus_suc : (i k : ℕ) → i + suc k ≡ i + 1 + k
plus_suc i k = omega arith

zero_plus : (k : ℕ) → 0 + k ≡ k
zero_plus k = omega arith

-- What the loop leaves is zero only if it was zero before, and the bytes it has seen are equal.
differences-zero :
    (n i : ℕ) (a b : List ℕ) (diff : ℕ)
    → differences n i a b diff ≡ 0
    → (diff ≡ 0) × ((k : ℕ) → k < n → get_or a (i + k) 0 ≡ get_or b (i + k) 0)
unfolding differences
differences-zero zero i a b diff e = (e, λ k h. absurd (omega arith))
differences-zero (suc n) i a b diff e =
    let x = get_or a i 0 in
    let y = get_or b i 0 in
    let d = bit_xor x y in
    let (before, later) = differences-zero n (i + 1) a b (bit_or diff d) e in
    let (clean, same) = or_eq_zero (diff + d) diff d (omega arith) (omega arith) before in
    (clean, here (eq_of_xor (x + y) x y (omega arith) (omega arith) same) later)
  where
    here :
        get_or a i 0 ≡ get_or b i 0
        → ((k : ℕ) → k < n → get_or a (i + 1 + k) 0 ≡ get_or b (i + 1 + k) 0)
        → (k : ℕ) → k < suc n
        → get_or a (i + k) 0 ≡ get_or b (i + k) 0
    here e later zero h =
        ap (λ j. get_or a j 0) (plus_zero i) ∙ e ∙ ap (λ j. get_or b j 0) (sym (plus_zero i))
    here e later (suc k) h =
        ap (λ j. get_or a j 0) (plus_suc i k)
        ∙ later k (omega arith)
        ∙ ap (λ j. get_or b j 0) (sym (plus_suc i k))

differences_same : (n i : ℕ) (a : List ℕ) → differences n i a a 0 ≡ 0
unfolding differences
differences_same zero i a = refl
differences_same (suc n) i a =
    let x = get_or a i 0 in rw (xor_self x x (omega arith)) (differences_same n (i + 1) a)

list_ext :
    (a b : List ℕ)
    → length a ≡ length b
    → ((k : ℕ) → k < length a → get_or a k 0 ≡ get_or b k 0)
    → a ≡ b
list_ext [] [] e same = refl
list_ext [] (y ∷ b) e same = absurd (omega arith)
list_ext (x ∷ a) [] e same = absurd (omega arith)
list_ext (x ∷ a) (y ∷ b) e same =
    ap₂ (λ z zs. z ∷ zs) (same 0 (omega arith))
      (list_ext a b (omega arith) (λ k h. same (suc k) (omega arith)))

-- The comparison without a branch finds digests of 64 bytes equal exactly when they are.
pub digests_equal_iff :
    (a b : List ℕ)
    → length a ≡ digest_len
    → length b ≡ digest_len
    → (digests_equal a b ≡ true) ↔ (a ≡ b)
unfolding digests_equal
digests_equal_iff a b la lb = (
  λ e. list_ext a b (omega arith) (λ k h. at k e (omega arith)),
  λ e. subst (λ c. digests_equal a c ≡ true) e (rw (differences_same digest_len 0 a)),
)
  where
    at : (k : ℕ) → digests_equal a b ≡ true → k < 64 → get_or a k 0 ≡ get_or b k 0
    at k e h =
        subst (λ j. get_or a j 0 ≡ get_or b j 0) (zero_plus k)
          ((differences-zero digest_len 0 a b 0 (ground arith)).1 k h)

-- What makes an image the one of the manifest.
abbrev pub IsGenuine : (List ℕ → List ℕ) → ManifestEntry → Option (List ℕ) → Type 0
IsGenuine digest entry file = (bytes : List ℕ) × (file ≡ some bytes) × (digest bytes ≡ entry.digest)

module _ (digest : List ℕ → List ℕ) (sized : (bytes : List ℕ) → length (digest bytes) ≡ digest_len)
    (entry : ManifestEntry) (entry_sized : length entry.digest ≡ digest_len) where
  -- With digests of 64 bytes an image is accepted, with its digest, exactly when its file is there and
  -- has the digest of the manifest; a missing file and one with another digest are told apart.
  pub verify_image_lem :
      (file : Option (List ℕ))
      → (IsGenuine digest entry file × (verify_image digest entry file ≡ ok entry.digest))
        ⊎ ((file ≡ none)
            × (verify_image digest entry file ≡ err (tampered image_missing entry no_digest)))
        ⊎ ((bytes : List ℕ) × (file ≡ some bytes)
            × (digest bytes ≢ entry.digest)
            × (verify_image digest entry file ≡ err (tampered image_modified entry (digest bytes))))
  unfolding verify_image
  verify_image_lem none = inr (inl (refl, refl))
  verify_image_lem (some bytes) =
      let same = digests_equal_iff (digest bytes) entry.digest (sized bytes) entry_sized in
      elim (Bool-cases (digests_equal (digest bytes) entry.digest)) [
        | inl e ↦ inl ((bytes, refl, same.0 e), rw e (ap ok (same.0 e)))
        | inr e ↦ inr (inr (bytes, refl, (λ f. cc (same.1 f)), rw e))
      ]
