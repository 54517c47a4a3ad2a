-- ===== src/AtomicFs.antt =====
-- Writing a file by way of a temporary one: src/atomic_fs.rs.
use symbolon.Prelude.{
  ℕ, ◌≡◌, ◌⊎◌, inl, inr, Bool, true, false, Option, none, some, List, ◌∷◌, arith, take, drop, Bytes,
  Result, ok, err,
}

-- A path and the temporary files of its writes, whose names are new for each write, with their content.
-- `synced` says whether the content of the path, and `named` whether its name, is on the disk: what is
-- not may be lost when the machine stops.
pub record File : Type 0 where
  pub target : Option Bytes
  pub synced : Bool
  pub named : Bool
  pub temporaries : List Bytes

-- What the file system answers to each call of one write: the error of a call that fails. A failing
-- `write_all_at` has written some bytes.
pub record Faults (E : Type 0) : Type 0 where
  pub path : Option E
  pub open_file : Option E
  pub write_all_at : Option (ℕ × E)
  pub sync_all : Option E
  pub rename : Option E
  pub remove_file : Option E
  pub open_dir : Option E
  pub sync_dir : Option E

module _ {E : Type 0} where
  -- what follows the rename: the fsync of the directory
  unfoldable pub sync_parent : Faults E → File → File × Result (Unit {0}) E
  sync_parent fs s = elim fs.open_dir [
    | some e ↦ (s, err e)
    | none ↦ elim fs.sync_dir [ some e ↦ (s, err e) | none ↦ (record s { named = true }, ok tt) ]
  ]

  -- the rename of the temporary file, whose content is `content`, on the disk if `flushed`
  unfoldable pub replace : Faults E → Bytes → Bool → File → File × Result (Unit {0}) E
  unfolding sync_parent
  replace fs content flushed s = elim fs.rename [
    | some e ↦ elim fs.remove_file [
      | some _ ↦ (record s { temporaries = content ∷ s.temporaries }, err e)
      | none ↦ (s, err e)
    ]
    | none ↦ sync_parent fs (record s { target = some content; synced = flushed; named = false })
  ]

  -- `f.sync_all()`, beside it whether what was written to the temporary file is on the disk
  unfoldable pub sync_file : Faults E → Bool × Result (Unit {0}) E
  sync_file fs = elim fs.sync_all [ some e ↦ (false, err e) | none ↦ (true, ok tt) ]

  -- The file that is written has no place in `temporaries` until a call fails that leaves it there.
  unfoldable pub atomic_write : Faults E → Bytes → File → File × Result (Unit {0}) E
  unfolding replace sync_file
  atomic_write fs content s = elim fs.path [
    | some e ↦ (s, err e)
    | none ↦ elim fs.open_file [
      | some e ↦ (s, err e)
      | none ↦ elim fs.write_all_at [
        | some (n, e) ↦ (record s { temporaries = take n content ∷ s.temporaries }, err e)
        | none ↦
            let (flushed, r) = sync_file fs in
            elim r [
              | err e ↦ (record s { temporaries = content ∷ s.temporaries }, err e)
              | ok _ ↦ replace fs content flushed s
            ]
      ]
    ]
  ]

  -- Whichever calls fail, the file is as it was, or it holds the whole of the new content, which was
  -- on the disk before the file got its name; a write that succeeds has done the latter, with the name
  -- on the disk, and left no temporary file of its own; one that fails has left at most one, and none if
  -- its temporary file was written and flushed and the removal of it does not fail.
  pub atomic_write_lem :
      (fs : Faults E) (content : Bytes) (s : File)
      → (let (t, r) = atomic_write fs content s in
          (((t.target ≡ s.target) × (t.synced ≡ s.synced) × (t.named ≡ s.named))
            ⊎ ((t.target ≡ some content) × (t.synced ≡ true)))
          × (r ≡ ok tt
              → (t.target ≡ some content)
                × (t.synced ≡ true)
                × (t.named ≡ true)
                × (t.temporaries ≡ s.temporaries))
          × ((t.temporaries ≡ s.temporaries) ⊎ (drop 1 t.temporaries ≡ s.temporaries))
          × (fs.write_all_at ≡ none
              → fs.sync_all ≡ none
              → fs.remove_file ≡ none
              → t.temporaries ≡ s.temporaries))
  unfolding atomic_write
  atomic_write_lem fs content s = (ground arith, ground arith, ground arith, ground arith)

  -- What of it concerns the content.
  pub atomic_write-content :
      (fs : Faults E) (content : Bytes) (s : File)
      → (let (t, r) = atomic_write fs content s in
          ((t.target ≡ s.target) ⊎ (t.target ≡ some content))
          × (r ≡ ok tt → (t.target ≡ some content) × (t.temporaries ≡ s.temporaries)))
  atomic_write-content fs content s =
      let (kept, done, left, cleaned) = atomic_write_lem fs content s in
      (
        elim kept [ inl same ↦ inl same.0 | inr new ↦ inr new.0 ],
        λ h. let (there, synced, named, own) = done h in (there, own),
      )
