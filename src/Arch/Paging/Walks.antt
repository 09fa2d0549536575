-- ===== src/Arch/Paging/Walks.antt =====
-- Mapping, translating and unmapping walk the same tables: arch/paging.rs.
use whisez_os.Prelude.{
  ℕ, zero, suc, ◌≤◌, ◌<◌, ◌≡◌, refl, Bool, true, false, some, leb, arith, Bool-cases, Option-cases,
  inl, inr, ◌⊎◌,
}
use whisez_os.Prelude.Results.{ok, err, Result-cases, ◌>>=◌}
use whisez_os.Arch.Addr.{PagingMode, levels, table_index}
use whisez_os.Arch.Paging.{
  already_mapped, PageSize, TableAccess, Translation, is_present, is_leaf, entry_frame,
  translate_from, translate, descend, write_leaf, map_page, validate, offset_in, terminal_level,
  contains, user_bit,
}

terminal_level_bounds :
    (size : PageSize) (mode : PagingMode)
    → (0 < terminal_level size) × (terminal_level size ≤ levels mode)
unfolding terminal_level levels
terminal_level_bounds size mode = ground arith

module _ {S : Type 0} (access : TableAccess S) where
  -- One level of a translation that succeeds: it ends at a leaf, or goes on below.
  pub record Level (s : S) (virt : ℕ) (mode : PagingMode) (level table : ℕ) (t : Translation)
      : Type 0 where
    pub index : ℕ
    pub entry : ℕ
    pub indexed : table_index virt (suc level) mode ≡ some index
    pub read : access.read_entry s table index ≡ some entry
    pub present : is_present entry ≡ true
    pub goes_on :
        (is_leaf entry (suc level) ≡ ok true)
        ⊎ ((is_leaf entry (suc level) ≡ ok false)
            × (translate_from access s virt mode level (entry_frame entry) ≡ ok t))

  translate-Level :
      (s : S) (virt : ℕ) (mode : PagingMode) (level table : ℕ) {t : Translation}
      → translate_from access s virt mode (suc level) table ≡ ok t
      → Level s virt mode level table t
  unfolding translate_from
  translate-Level s virt mode level table {t} e =
      elim (Option-cases (table_index virt (suc level) mode)) [
        | inl p ↦ absurd (ground arith)
        | inr (index, p) ↦ elim (Option-cases (access.read_entry s table index)) [
          | inl q ↦ absurd (ground arith)
          | inr (entry, q) ↦ elim (Bool-cases (is_present entry)) [
            | inr r ↦ absurd (ground arith)
            | inl r ↦ elim (Result-cases (is_leaf entry (suc level))) [
              | inr (x, l) ↦ absurd (ground arith)
              | inl (leaf, l) ↦ record {
                index = index;
                entry = entry;
                indexed = p;
                read = q;
                present = r;
                goes_on = ground arith;
              }
            ]
          ]
        ]
      ]

  -- Where a translation exists from a table on, the walk of `map_page` and its last write end in the
  -- refusal to map over it.
  descend_occupied :
      (virt : ℕ) (mode : PagingMode) (user : Bool) (terminal level : ℕ) (s : S)
      (table frame flags : ℕ) {t : Translation}
      → terminal ≤ level
      → 0 < terminal
      → translate_from access s virt mode level table ≡ ok t
      → (descend access virt mode user terminal level s table >>= λ (s', last).
          write_leaf access virt frame flags mode terminal s' last)
        ≡ err already_mapped
  unfolding descend write_leaf
  descend_occupied virt mode user terminal zero s table frame flags h k e = absurd (omega arith)
  descend_occupied virt mode user terminal (suc level) s table frame flags {t} h k e =
      let w = translate-Level s virt mode level table {t = t} e in
      elim (Bool-cases (leb (suc level) terminal)) [
        | inl last ↦
            let same : terminal ≡ suc level = ground arith in
            rw (last, descend) (rw (same, write_leaf, w.indexed, w.read, w.present) refl)
        | inr above ↦ elim w.goes_on [
          | inl leaf ↦ rw (above, descend, w.indexed, w.read, w.present, leaf) refl
          | inr (table_entry, below) ↦
              rw (above, descend, w.indexed, w.read, w.present, table_entry)
                (descend_occupied virt mode user terminal level s (entry_frame w.entry) frame flags
                  {t = t} (ground arith) k below)
        ]
      ]

  -- No mapping is overwritten: an address that translates, through a page of any size, is not
  -- mapped again: with flags that pass the check, and the address and the frame aligned to the
  -- size, `map_page` answers `already_mapped`.
  pub map_page_no_overwrite :
      (s : S) (root virt frame flags : ℕ) (size : PageSize) (mode : PagingMode) {t : Translation}
      → translate access s root virt mode ≡ ok t
      → validate flags virt mode ≡ ok tt
      → offset_in size virt ≡ 0
      → offset_in size frame ≡ 0
      → map_page access s root virt frame flags size mode ≡ err already_mapped
  unfolding map_page translate
  map_page_no_overwrite s root virt frame flags size mode {t} e v a b =
      rw (v, map_page, a, b)
        (descend_occupied virt mode (contains flags user_bit) (terminal_level size) (levels mode) s
          root frame flags {t = t} (terminal_level_bounds size mode).1
          (terminal_level_bounds size mode).0 e)
