-- ===== src/Guard/Files.antt =====
-- The helpers on files.
use whisez_os.Prelude.{
  ℕ, ◌/◌, ◌%◌, Bool, not, ◌&&◌, none, some, List, [], ◌∷◌, leb, if◌then◌else◌, length, get_or,
}
use whisez_os.Prelude.Results.{Result, ok, err, ◌>>=◌, ok_or}
use whisez_os.Guard.{Host, Failure, io, path_missing, no_file_name}

abbrev pub hex : List ℕ
hex =
    b'0' ∷ b'1' ∷ b'2' ∷ b'3' ∷ b'4' ∷ b'5' ∷ b'6' ∷ b'7' ∷ b'8' ∷ b'9' ∷ b'a' ∷ b'b' ∷ b'c' ∷ b'd'
    ∷ b'e' ∷ b'f' ∷ []

-- Each byte in two digits.
unfoldable pub hex_of : List ℕ → List ℕ
hex_of [] = []
hex_of (b ∷ bs) = get_or hex (b / 16) 0 ∷ get_or hex (b % 16) 0 ∷ hex_of bs

-- An error of the system, passed on.
abbrev pub lift : {P E A : Type 0} → Result E A → Result (Failure P E) A
lift (ok a) = ok a
lift (err e) = err (io e)

module _ {P E S : Type 0} (host : Host P E S) where
  -- The set of paths: a list in ascending order.
  unfoldable pub insert : P → List P → List P
  insert p [] = p ∷ []
  insert p (q ∷ qs) =
      if host.before p q then p ∷ q ∷ qs else if host.before q p then q ∷ insert p qs else q ∷ qs

  -- The loop over the entries of a folder; it breaks off with `limit` files.
  unfoldable pub walk_files : List (P × Bool) → ℕ → List P → List P
  walk_files [] limit files = files
  walk_files ((p, file) ∷ entries) limit files =
      let more = insert p files in
      let next = if file then more else files in
      if file && leb limit (length more) then more else walk_files entries limit next

  -- One root: a file, or a folder.
  unfoldable pub collect_root : P → ℕ → List P → Result (Failure P E) (List P)
  collect_root root limit files =
      if host.is_file root
      then ok (insert root files)
      else if not (host.is_dir root)
      then err (path_missing root)
      else ok (walk_files (host.walk root) limit files)

  unfoldable pub collect_from : List P → ℕ → List P → Result (Failure P E) (List P)
  collect_from [] limit files = ok files
  collect_from (root ∷ roots) limit files = do
    more ← collect_root root limit files
    collect_from roots limit more

  unfoldable pub collect_files : List P → ℕ → Result (Failure P E) (List P)
  collect_files paths limit = collect_from paths limit []

  -- The loop over the reads, up to one that reads nothing.
  unfoldable pub hash_chunks : List (List ℕ) → S → S
  hash_chunks [] s = s
  hash_chunks ([] ∷ chunks) s = s
  hash_chunks ((b ∷ bs) ∷ chunks) s = hash_chunks chunks (host.update (b ∷ bs) s)

  unfoldable pub hash_file : P → Result (Failure P E) (List ℕ)
  hash_file path = do
    chunks ← lift (host.chunks path)
    ok (hex_of (host.finalize (hash_chunks chunks host.new)))

  unfoldable pub parent_or_here : P → P
  parent_or_here path = elim (host.parent path) [
    | none ↦ host.here
    | some p ↦ if host.is_empty p then host.here else p
  ]

  -- Of a path that does not exist yet.
  unfoldable pub fresh_path : P → Result (Failure P E) P
  fresh_path path = do
    name ← ok_or (host.file_name path) no_file_name
    parent ← lift (host.canonicalize (parent_or_here path))
    ok (host.join parent name)

  unfoldable pub absolute_path : P → Result (Failure P E) P
  absolute_path path = if host.exists path then lift (host.canonicalize path) else fresh_path path

  unfoldable pub modified_unix : P → ℕ
  modified_unix path = elim (host.modified path) [ none ↦ 0 | some t ↦ t ]
