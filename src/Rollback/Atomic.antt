-- ===== src/Rollback/Atomic.antt =====
-- The runner's journal file: a save replaces it whole or not at all, whatever fails, and a load
-- after a save returns what was saved. The operating system keeps the laws of `DiskLaws`.
use hardline.Base.{
  Text, codes, ◌≡◌, ◌≢◌, refl, ap, ◌∙◌, Option, some, [], ◌∷◌, ◌++◌, ◌⊎◌, inl, inr, Result, ok, err,
  Result-cases, arith, length, length-append, ◌<◌,
}
use hardline.Base.Exec.{continue, wrap_result}
use hardline.Pluginapi.Host.{Fault}
use hardline.Rollback.Journal.{Journal}
use hardline.Rollback.Persist.{
  Codec, Disk, JournalError, LastPaths, sealed, marshal_journal, decode_journal, journal_version,
  local_last_paths, save_at, save_last, load_last, create_dir, write_failed, persist_failed,
}
use hardline.Rollback.Integrity.{marshal-decode}

-- The files of the runner as the disk shows them, and what a call does to them. A write that fails
-- may leave anything in its own file; a rename that fails leaves every file alone.
pub record DiskLaws {W : Type 0} (disk : Disk W) : Type 0 where
  pub content : W → Text → Option Text
  pub mkdir_all_keeps : (d q : Text) (w : W) → content (disk.mkdir_all d w).1 q ≡ content w q
  pub write_file_keeps :
      (p t q : Text) (w : W) → q ≢ p → content (disk.write_file p t w).1 q ≡ content w q
  pub write_file_ok :
      (p t : Text) (w : W)
      → (disk.write_file p t w).0 ≡ ok tt
      → content (disk.write_file p t w).1 p ≡ some t
  pub rename_ok :
      (p q : Text) (w : W)
      → (disk.rename p q w).0 ≡ ok tt
      → content (disk.rename p q w).1 q ≡ content w p
  pub rename_err :
      (p q r : Text) (w : W) (e : Fault)
      → (disk.rename p q w).0 ≡ err e
      → content (disk.rename p q w).1 r ≡ content w r
  pub read_file_ok : (p t : Text) (w : W) → content w p ≡ some t → (disk.read_file p w).0 ≡ ok t

append-ne : (s t : Text) → 0 < length t → s ≢ s ++ t
append-ne s t h e = absurd (omega (arith, ap length e, length-append s t))

last-ne-tmp :
    (root : Result Fault Text) (host profile_id : Text) (paths : LastPaths)
    → local_last_paths root host profile_id ≡ ok paths
    → paths.tmp ≡ paths.last ++ codes ".tmp"
unfolding local_last_paths
last-ne-tmp (err f) host profile_id paths h = absurd (ground arith)
last-ne-tmp (ok root) host profile_id paths h = ground arith

module _ (codec : Codec) {W : Type 0} (disk : Disk W) (laws : DiskLaws disk)
    (root : Result Fault Text) where
  -- What a save has done to the file at `q`, for an attempt to write `text` there.
  abbrev pub ReplacedOrKept : Text → Text → W → Result JournalError (Unit {0}) × W → Type 0
  ReplacedOrKept q text w out =
      ((out.0 ≡ ok tt) × (laws.content out.1 q ≡ some text))
      ⊎ ((e : JournalError) × (out.0 ≡ err e) × (laws.content out.1 q ≡ laws.content w q))

  replaced :
      (q text : Text) (w : W) (out : Result JournalError (Unit {0}) × W)
      → ReplacedOrKept q text w out
      → out.0 ≡ ok tt
      → laws.content out.1 q ≡ some text
  replaced q text w out (inl (_, e)) done = e
  replaced q text w out (inr (e, f, _)) done = absurd (cc)

  save_at-atomic :
      (paths : LastPaths) (text : Text) (w : W)
      → paths.last ≢ paths.tmp
      → ReplacedOrKept paths.last text w (save_at codec disk root paths text w)
  unfolding save_at
  save_at-atomic paths text w apart =
      let w1 = (disk.mkdir_all paths.dir w).1 in
      let w2 = (disk.write_file paths.tmp text w1).1 in
      let kept1 = laws.mkdir_all_keeps paths.dir paths.last w in
      let kept2 = laws.write_file_keeps paths.tmp text paths.last w1 apart in
      let written = laws.write_file_ok paths.tmp text w1 in
      elim (Result-cases (disk.mkdir_all paths.dir w).0) [
        | inr (e, f) ↦ rw (f, continue, wrap_result) (inr (create_dir e, refl, kept1))
        | inl (_, f) ↦ elim (Result-cases (disk.write_file paths.tmp text w1).0) [
          | inr (e, g) ↦
              rw (f, continue, wrap_result)
                (rw (g, continue, wrap_result) (inr (write_failed e, refl, kept2 ∙ kept1)))
          | inl (_, g) ↦ elim (Result-cases (disk.rename paths.tmp paths.last w2).0) [
            | inr (e, k) ↦
                rw (f, continue, wrap_result)
                  (rw (g, continue, wrap_result)
                    (rw (k, wrap_result)
                      (inr (
                        persist_failed e,
                        refl,
                        laws.rename_err paths.tmp paths.last paths.last w2 e k ∙ kept2 ∙ kept1,
                      ))))
            | inl (_, k) ↦
                rw (f, continue, wrap_result)
                  (rw (g, continue, wrap_result)
                    (rw (k, wrap_result)
                      (inl (refl, laws.rename_ok paths.tmp paths.last w2 k ∙ written g))))
          ]
        ]
      ]

  -- Whatever fails, the journal file holds what it held before the save, or the whole new text;
  -- the latter exactly when the save gives no error.
  pub save_last-atomic :
      (j : Journal) (w : W) (paths : LastPaths)
      → local_last_paths root j.host j.profile_id ≡ ok paths
      → ReplacedOrKept paths.last (marshal_journal codec j) w (save_last codec disk root j w)
  unfolding save_last
  save_last-atomic j w paths h =
      rw (h, continue)
        (save_at-atomic paths (marshal_journal codec j) w (
          rw (last-ne-tmp root j.host j.profile_id paths h)
            (append-ne paths.last (codes ".tmp") (omega arith))))

  -- After a save without an error, the file holds the whole text.
  pub save_last-saved :
      (j : Journal) (w : W) (paths : LastPaths)
      → local_last_paths root j.host j.profile_id ≡ ok paths
      → (save_last codec disk root j w).0 ≡ ok tt
      → laws.content (save_last codec disk root j w).1 paths.last ≡ some (marshal_journal codec j)
  save_last-saved j w paths h done = replaced paths.last _ w _ (save_last-atomic j w paths h) done

  load_last-content :
      (j : Journal) (w : W) (paths : LastPaths)
      → local_last_paths root j.host j.profile_id ≡ ok paths
      → laws.content w paths.last ≡ some (marshal_journal codec j)
      → decode_journal codec (marshal_journal codec j) ≡ ok (sealed codec j)
      → (load_last codec disk root j.host j.profile_id w).0 ≡ ok (sealed codec j)
  unfolding load_last
  load_last-content j w paths h there decoded =
      rw (h, continue)
        (rw (laws.read_file_ok paths.last (marshal_journal codec j) w there, continue, wrap_result)
          decoded)

  -- Loading what a save without error has written gives the journal with its checksum, if the
  -- parser reads back what the encoder writes for it and its digest is not empty.
  pub save_last-load_last :
      (j : Journal) (w : W)
      → codec.parse (codec.encode (sealed codec j) ++ (10 ∷ [])) ≡ some (sealed codec j)
      → codec.digest (codec.encode (record j { checksum = [] })) ≢ []
      → j.version ≡ journal_version
      → (save_last codec disk root j w).0 ≡ ok tt
      → (load_last codec disk root j.host j.profile_id (save_last codec disk root j w).1).0
        ≡ ok (sealed codec j)
  save_last-load_last j w parses digests v done =
      elim (Result-cases (local_last_paths root j.host j.profile_id)) [
        | inr (e, h) ↦ absurd (unfold save_last in cc (rw (h, continue) at done))
        | inl (paths, h) ↦
            load_last-content j (save_last codec disk root j w).1 paths h
              (save_last-saved j w paths h done) (marshal-decode codec j parses digests v)
      ]
