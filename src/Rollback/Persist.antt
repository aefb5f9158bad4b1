-- ===== src/Rollback/Persist.antt =====
-- internals/rollback/journal.go: the journal's encoding with its checksum, and the file that the
-- runner keeps. The JSON encoder, SHA-256 and the operating system are parameters. The encoder
-- never fails on a journal, and a nil journal is not a value here.
use hardline.Base.{
  ℕ, Text, codes, ◌==◌, Bool, not, ◌&&◌, ◌||◌, Option, none, some, [], ◌∷◌, ◌++◌, map, Result, ok,
  err, if◌then◌else◌, is_nil, all, leb, nat_eq, trim_space, contains,
}
use hardline.Base.Exec.{Exec, ◌>>=◌, ◌>>◌, wrapping, lift}
use hardline.Pluginapi.Host.{Fault}
use hardline.Rollback.Journal.{Journal, in_progress}

-- json.MarshalIndent, json.Unmarshal, and the hexadecimal SHA-256 of a text.
pub record Codec : Type 0 where
  pub encode : Journal → Text
  pub parse : Text → Option Journal
  pub digest : Text → Text

-- What the code uses of the package `os`, with os.IsNotExist.
pub record Disk (W : Type 0) : Type 0 where
  pub mkdir_all : Text → Exec W Fault (Unit {0})
  pub write_file : Text → Text → Exec W Fault (Unit {0})
  pub rename : Text → Text → Exec W Fault (Unit {0})
  pub remove : Text → Exec W Fault (Unit {0})
  pub read_file : Text → Exec W Fault Text
  pub is_not_exist : Fault → Bool

pub data JournalError : Type 0 where
  host_required profile_required no_checksum checksum_mismatch undecodable : JournalError
  unsupported_version : ℕ → JournalError
  state_dir create_dir write_failed persist_failed remove_failed remove_dir_failed read_failed :
      Fault → JournalError

abbrev pub journal_version : ℕ
journal_version = 3

-- NewJournal, for a clock that has written the run's id and its time of creation.
unfoldable pub new_journal : Text → Text → Text → Text → Text → Journal
new_journal run_id created_at host profile_id profile_path = record {
  version = journal_version;
  run_id = run_id;
  created_at = created_at;
  host = trim_space host;
  profile_id = trim_space profile_id;
  profile_path = trim_space profile_path;
  status = in_progress;
  steps = [];
  checksum = [];
}

unfoldable pub safe_byte : ℕ → Bool
safe_byte c =
    (leb b'A' c && leb c b'Z')
    || ((leb b'a' c && leb c b'z')
        || ((leb b'0' c && leb c b'9') || (nat_eq c b'.' || (nat_eq c b'_' || nat_eq c b'-'))))

unfoldable pub sanitize_byte : ℕ → ℕ
sanitize_byte c = if safe_byte c then c else b'_'

-- `strings.Trim(s, ".") == ""`: every byte is a dot.
abbrev pub all_dots : Text → Bool
all_dots s = all (λ c. nat_eq c b'.') s

unfoldable pub sanitize_path : Text → Text
sanitize_path s = let out = map sanitize_byte (trim_space s) in if all_dots out then [] else out

-- The directory, the journal and its temporary sibling. `filepath.Join` adds the separators.
pub record LastPaths : Type 0 where
  pub dir : Text
  pub last : Text
  pub tmp : Text

unfoldable pub local_last_paths : Result Fault Text → Text → Text → Result JournalError LastPaths
local_last_paths (err f) host profile_id = err (state_dir f)
local_last_paths (ok root) host profile_id =
    let host_key = sanitize_path host in
    let profile_key = sanitize_path profile_id in
    if is_nil host_key
    then err host_required
    else if is_nil profile_key
    then err profile_required
    else (let dir = root ++ (b'/' ∷ host_key) in
        let last = dir ++ (b'/' ∷ (profile_key ++ codes ".json")) in
        ok (record { dir = dir; last = last; tmp = last ++ codes ".tmp" }))

module _ (codec : Codec) where
  -- The journal with the checksum that its other fields give.
  unfoldable pub sealed : Journal → Journal
  sealed j = record j { checksum = codec.digest (codec.encode (record j { checksum = [] })) }

  unfoldable pub marshal_journal : Journal → Text
  unfolding sealed
  marshal_journal j = codec.encode (sealed j) ++ (10 ∷ [])

  unfoldable pub check_journal : Journal → Result JournalError Journal
  check_journal j =
      if not (nat_eq j.version journal_version)
      then err (unsupported_version j.version)
      else if is_nil j.checksum
      then err no_checksum
      else if not (codec.digest (codec.encode (record j { checksum = [] })) == j.checksum)
      then err checksum_mismatch
      else ok j

  unfoldable pub decode_journal : Text → Result JournalError Journal
  decode_journal bytes = elim (codec.parse bytes) [
    | none ↦ err undecodable
    | some j ↦ check_journal j
  ]

  module _ {W : Type 0} (disk : Disk W) (root : Result Fault Text) where
    -- (*Journal).SaveLast: the new text goes to a sibling that is renamed into place.
    unfoldable pub save_at : LastPaths → Text → Exec W JournalError (Unit {0})
    save_at paths text = do
      wrapping create_dir (disk.mkdir_all paths.dir)
      wrapping write_failed (disk.write_file paths.tmp text)
      wrapping persist_failed (disk.rename paths.tmp paths.last)

    unfoldable pub save_last : Journal → Exec W JournalError (Unit {0})
    save_last j = do
      paths ← lift (local_last_paths root j.host j.profile_id)
      save_at paths (marshal_journal j)

    unfoldable pub load_last : Text → Text → Exec W JournalError Journal
    load_last host profile_id = do
      paths ← lift (local_last_paths root host profile_id)
      bytes ← wrapping read_failed (disk.read_file paths.last)
      lift (decode_journal bytes)

    -- What an error of `os.Remove` becomes, unless it is one to overlook.
    remove_result :
        (Fault → JournalError)
        → (Fault → Bool)
        → Result Fault (Unit {0})
        → Result JournalError (Unit {0})
    remove_result f overlook (ok x) = ok tt
    remove_result f overlook (err e) = if overlook e then ok tt else err (f e)

    unfoldable pub remove_last : Journal → Exec W JournalError (Unit {0})
    unfolding remove_result
    remove_last j = do
      paths ← lift (local_last_paths root j.host j.profile_id)
      (λ w.
          let (r, w') = disk.remove paths.last w in
          (remove_result remove_failed disk.is_not_exist r, w'))
      (λ w.
          let (r, w') = disk.remove paths.dir w in
          (
            remove_result remove_dir_failed
                (λ e. disk.is_not_exist e || contains e (codes "not empty")) r,
            w',
          ))
