-- ===== src/Objstore.antt =====
-- internal/objstore/objstore.go: the content-addressed object store. `hash` is SHA-256 in
-- hexadecimal and `join` is filepath.Join, both of Go's standard library. The files under the
-- root are a list of paths with their bytes, temp files among them; each call of the file system may
-- fail, os.Remove too. Directories are not modelled.
mod Cases
mod Stored
pub mod Laws
mod Tests
use pgdesign.Base.{
  ℕ, zero, suc, ◌+◌, ◌*◌, ◌/◌, ◌%◌, Text, List, [], ◌∷◌, ◌++◌, Bool, true, false, not, ◌||◌, Option,
  none, some, Result, ok, err, if◌then◌else◌, text_eq, take, drop, length, ltb, ◌==◌, bytes,
}

-- The bytes "PGO1".
abbrev pub magic : List ℕ
magic = bytes "PGO1"

abbrev pub header_len : ℕ
header_len = 8

pub record Store : Type 0 where
  pub root : Text
  pub epoch : ℕ

abbrev pub Files : Type 0
Files = List (Text × List ℕ)

unfoldable pub read_file : Text → Files → Option (List ℕ)
read_file path [] = none
read_file path ((p, raw) ∷ fs) = if text_eq p path then some raw else read_file path fs

-- The calls of Put, Has and Get that may fail.
pub data Call : Type 0 where
  stat mkdir create_temp write_temp close_temp rename_temp remove_temp read_all : Call

-- What the file system does in a run of Put: the calls that fail, the path of the file that
-- CreateTemp makes, and the bytes that a failed Write or Close leaves in it.
pub record Disk : Type 0 where
  pub fails : Call → Bool
  pub temp : Text
  pub left : List ℕ

-- os.Remove and os.Rename
unfoldable pub remove_file : Text → Files → Files
remove_file path [] = []
remove_file path ((p, raw) ∷ fs) =
    let rest = remove_file path fs in if text_eq p path then rest else (p, raw) ∷ rest

unfoldable pub rename_file : Text → Text → Files → Files
rename_file from to fs = elim (read_file from fs) [
  | none ↦ fs
  | some raw ↦ (to, raw) ∷ remove_file from fs
]

pub data StoreError : Type 0 where
  io_error : Call → StoreError
  not_found : StoreError
  epoch_mismatch : Text → ℕ → ℕ → StoreError
  truncated_header bad_magic hash_mismatch : Text → StoreError

-- binary.BigEndian.PutUint32 and Uint32
unfoldable pub put_uint32 : ℕ → List ℕ
put_uint32 n = n / 16777216 % 256 ∷ n / 65536 % 256 ∷ n / 256 % 256 ∷ n % 256 ∷ []

unfoldable pub get_uint32 : List ℕ → ℕ
get_uint32 (a ∷ b ∷ c ∷ d ∷ rest) = a * 16777216 + b * 65536 + c * 256 + d
get_uint32 _ = 0

unfoldable pub envelope : ℕ → List ℕ → List ℕ
unfolding put_uint32
envelope epoch content = magic ++ (put_uint32 epoch ++ content)

-- An error once the temp file is there: os.Remove deletes it, and its own error is ignored.
unfoldable pub abandon : Disk → Call → Files → Result StoreError Text × Files
abandon disk c fs =
    (err (io_error c), if disk.fails remove_temp then fs else remove_file disk.temp fs)

-- The staging of the bytes in the temp file, and its rename to the path of the object.
unfoldable pub stage : Disk → Text → Text → List ℕ → Files → Result StoreError Text × Files
stage disk id path raw fs =
    if disk.fails write_temp
    then abandon disk write_temp ((disk.temp, disk.left) ∷ fs)
    else if disk.fails close_temp
    then abandon disk close_temp ((disk.temp, disk.left) ∷ fs)
    else if disk.fails rename_temp
    then abandon disk rename_temp ((disk.temp, raw) ∷ fs)
    else (ok id, rename_file disk.temp path ((disk.temp, raw) ∷ fs))

module _ (hash : List ℕ → Text) (join : Text → Text → Text → Text) where
  unfoldable pub object_path : Store → Text → Text
  object_path s id = join s.root (take 2 id) (drop 2 id)

  unfoldable pub write_object : Disk → Store → List ℕ → Files → Result StoreError Text × Files
  write_object disk s content fs =
      if disk.fails mkdir
      then (err (io_error mkdir), fs)
      else if disk.fails create_temp
      then (err (io_error create_temp), fs)
      else stage disk (hash content) (object_path s (hash content)) (envelope s.epoch content) fs

  -- Put
  unfoldable pub put : Disk → Store → List ℕ → Files → Result StoreError Text × Files
  put disk s content fs =
      if disk.fails stat
      then (err (io_error stat), fs)
      else elim (read_file (object_path s (hash content)) fs) [
        | some raw ↦ (ok (hash content), fs)
        | none ↦ write_object disk s content fs
      ]

  -- Has
  unfoldable pub has : (Call → Bool) → Store → Text → Files → Result StoreError Bool
  has fails s id fs =
      if fails stat
      then err (io_error stat)
      else elim (read_file (object_path s id) fs) [ some raw ↦ ok true | none ↦ ok false ]

  -- The checks of Get on the bytes of the file.
  unfoldable pub open_object : Store → Text → List ℕ → Result StoreError (List ℕ)
  open_object s id raw =
      let got = get_uint32 (drop 4 raw) in
      let content = drop header_len raw in
      if ltb (length raw) header_len
      then err (truncated_header id)
      else if not (text_eq (take 4 raw) magic)
      then err (bad_magic id)
      else if not (got == s.epoch)
      then err (epoch_mismatch id s.epoch got)
      else if not (text_eq (hash content) id)
      then err (hash_mismatch id)
      else ok content

  -- Get
  unfoldable pub get : (Call → Bool) → Store → Text → Files → Result StoreError (List ℕ)
  get fails s id fs =
      if fails read_all then err (io_error read_all) else elim (read_file (object_path s id) fs) [
        | none ↦ err not_found
        | some raw ↦ open_object s id raw
      ]
