-- ===== src/Arch/Paging/Unmap.antt =====
-- `unmap_page` of arch/paging.rs takes the mapping away.
use whisez_os.Prelude.{
  ℕ, zero, suc, ◌≡◌, refl, ap, ◌∙◌, true, false, some, arith, Bool-cases, Option-cases, inl, inr,
  ◌⊎◌,
}
use whisez_os.Prelude.Bits.{has_bit-bit, bit_zero}
use whisez_os.Prelude.Results.{ok, err, Result-cases}
use whisez_os.Arch.Addr.{PagingMode, levels, table_index}
use whisez_os.Arch.Paging.{
  not_mapped, PageSize, TableAccess, is_present, is_leaf, entry_frame, size_at, translate_from,
  translate, unmap_from, unmap_page, clear_leaf,
}

-- What the kernel relies on of the tables: a write is read back, and changes no other entry.
pub record IsMemory {S : Type 0} (access : TableAccess S) : Type 0 where
  pub written :
      (s s' : S) (table index e : ℕ)
      → access.write_entry s table index e ≡ ok s'
      → access.read_entry s' table index ≡ some e
  pub others :
      (s s' : S) (table index e t i : ℕ)
      → access.write_entry s table index e ≡ ok s'
      → ((t ≡ table) × (i ≡ index)) ⊎ (access.read_entry s' t i ≡ access.read_entry s t i)

is_present_zero : is_present 0 ≡ false
unfolding is_present
is_present_zero = has_bit-bit 0 0 ∙ bit_zero 0

module _ {S : Type 0} (access : TableAccess S) (memory : IsMemory access) where
  -- Every entry is as it was, or empty.
  abbrev pub Cleared : S → S → Type 0
  Cleared s s' =
      (t i : ℕ)
      → (access.read_entry s' t i ≡ some 0) ⊎ (access.read_entry s' t i ≡ access.read_entry s t i)

  record Level (s s' : S) (virt : ℕ) (mode : PagingMode) (level table frame : ℕ) (size : PageSize)
      : Type 0 where
    index : ℕ
    entry : ℕ
    indexed : table_index virt (suc level) mode ≡ some index
    read : access.read_entry s table index ≡ some entry
    present : is_present entry ≡ true
    goes_on :
        (access.write_entry s table index 0 ≡ ok s')
        ⊎ ((is_leaf entry (suc level) ≡ ok false)
            × (unmap_from access s virt mode level (entry_frame entry) ≡ ok (s', frame, size)))

  clear_leaf-ok :
      (s : S) (table index entry level : ℕ) {s' : S} {frame : ℕ} {size : PageSize}
      → clear_leaf access s table index entry level ≡ ok (s', frame, size)
      → access.write_entry s table index 0 ≡ ok s'
  unfolding clear_leaf
  clear_leaf-ok s table index entry level e = elim (Result-cases (size_at level)) [
    | inr (x, p) ↦ absurd (ground arith)
    | inl (z, p) ↦ elim (Result-cases (access.write_entry s table index 0)) [
      | inr (x, q) ↦ absurd (ground arith)
      | inl (t, q) ↦ ground arith
    ]
  ]

  unmap-Level :
      (s : S) (virt : ℕ) (mode : PagingMode) (level table : ℕ) {s' : S} {frame : ℕ}
      {size : PageSize}
      → unmap_from access s virt mode (suc level) table ≡ ok (s', frame, size)
      → Level s s' virt mode level table frame size
  unfolding unmap_from
  unmap-Level s virt mode level table {s'} {frame} {size} e =
      elim (Option-cases (table_index virt (suc level) mode)) [
        | inl p ↦ absurd (ground arith)
        | inr (index, p) ↦ elim (Option-cases (access.read_entry s table index)) [
          | inl q ↦ absurd (ground arith)
          | inr (entry, q) ↦ elim (Bool-cases (is_present entry)) [
            | inr r ↦ absurd (ground arith)
            | inl r ↦ elim (Result-cases (is_leaf entry (suc level))) [
              | inr (x, l) ↦ absurd (ground arith)
              | inl (leaf, l) ↦ record {
                index = index;
                entry = entry;
                indexed = p;
                read = q;
                present = r;
                goes_on = ground (
                  arith,
                  clear_leaf-ok s table index entry (suc level) {s' = s'} {frame = frame}
                      {size = size},
                );
              }
            ]
          ]
        ]
      ]

  unmap_clears :
      (s : S) (virt : ℕ) (mode : PagingMode) (level table : ℕ) {s' : S} {frame : ℕ}
      {size : PageSize}
      → unmap_from access s virt mode level table ≡ ok (s', frame, size)
      → Cleared s s'
  unfolding unmap_from
  unmap_clears s virt mode zero table e = absurd (cc)
  unmap_clears s virt mode (suc level) table {s'} {frame} {size} e =
      let w = unmap-Level s virt mode level table {s' = s'} {frame = frame} {size = size} e in
      elim w.goes_on [
        | inl wrote ↦ λ t i. elim (memory.others s s' table w.index 0 t i wrote) [
          | inl (a, b) ↦ inl (
              ap (λ u. access.read_entry s' u i) a
              ∙ ap (access.read_entry s' table) b
              ∙ memory.written s s' table w.index 0 wrote)
          | inr same ↦ inr same
        ]
        | inr (table_entry, below) ↦ unmap_clears s virt mode level (entry_frame w.entry) below
      ]

  unmapped_from :
      (s s' : S) (virt : ℕ) (mode : PagingMode) (level table : ℕ) {frame : ℕ} {size : PageSize}
      → Cleared s s'
      → unmap_from access s virt mode level table ≡ ok (s', frame, size)
      → translate_from access s' virt mode level table ≡ err not_mapped
  unfolding translate_from unmap_from
  unmapped_from s s' virt mode zero table c e = refl
  unmapped_from s s' virt mode (suc level) table {frame} {size} c e =
      let w = unmap-Level s virt mode level table {s' = s'} {frame = frame} {size = size} e in
      elim (c table w.index) [
        | inl gone ↦ rw (w.indexed, gone, is_present_zero, translate_from) refl
        | inr same ↦ elim w.goes_on [
          | inl wrote ↦
              rw
                (
                  w.indexed,
                  memory.written s s' table w.index 0 wrote,
                  is_present_zero,
                  translate_from,
                )
                refl
          | inr (table_entry, below) ↦
              rw (w.indexed, same ∙ w.read, w.present, table_entry, translate_from)
                (unmapped_from s s' virt mode level (entry_frame w.entry) c below)
        ]
      ]

  -- On tables whose entries read back as written, each apart from the others: where `unmap_page`
  -- succeeds the address does not translate any more, also where a table of the walk maps itself,
  -- and no entry has changed but to the empty one.
  pub unmap_page-translate :
      (s s' : S) (root virt frame : ℕ) (size : PageSize) (mode : PagingMode)
      → unmap_page access s root virt mode ≡ ok (s', frame, size)
      → (translate access s' root virt mode ≡ err not_mapped) × Cleared s s'
  unfolding unmap_page translate
  unmap_page-translate s s' root virt frame size mode e =
      let c = unmap_clears s virt mode (levels mode) root e in
      (unmapped_from s s' virt mode (levels mode) root c e, c)
