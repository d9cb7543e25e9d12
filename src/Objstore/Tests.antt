-- ===== src/Objstore/Tests.antt =====
-- A store with one object, under a hash that is easy to read.
use pgdesign.Base.{
  ℕ, Text, bytes, List, [], ◌∷◌, ◌++◌, drop, Bool, true, false, some, none, ok, err, ◌≡◌, ◌≢◌, refl,
  arith, text_eq,
}
use pgdesign.Objstore.{
  Store, Files, put, get, has, read_file, envelope, object_path, get_uint32, put_uint32,
  open_object, write_object, stage, epoch_mismatch, Call, write_temp, remove_temp, Disk, abandon,
  rename_file, remove_file, io_error,
}
use pgdesign.Objstore.Stored.{never, IsStore, IsCollisionFree}
use pgdesign.Objstore.Laws.{Kept, put-get, get_sound, put-get_other_epoch}

abbrev tagged : List ℕ → Text
tagged content = 1 ∷ 2 ∷ content

abbrev slashed : Text → Text → Text → Text
slashed root a b = root ++ (47 ∷ (a ++ (47 ∷ b)))

abbrev seven : Store
seven = record { root = []; epoch = 7 }

abbrev eight : Store
eight = record { root = []; epoch = 8 }

abbrev hello : List ℕ
hello = bytes "hello"

abbrev one_object : Files
one_object = (47 ∷ 1 ∷ 2 ∷ 47 ∷ hello, envelope 7 hello) ∷ []

no_files-IsStore : IsStore tagged slashed seven []
unfolding IsStore read_file
no_files-IsStore content raw e = cc

seven-IsCollisionFree : IsCollisionFree tagged slashed seven
unfolding object_path
seven-IsCollisionFree c d e = cc

-- The temp file is /1/.tmp.
abbrev disk : (Call → Bool) → Disk
disk fails = record { fails = fails; temp = 47 ∷ 1 ∷ 47 ∷ bytes ".tmp"; left = bytes "PGO" }

disk-apart : (d : List ℕ) → (disk never).temp ≢ object_path tagged slashed seven (tagged d)
unfolding object_path
disk-apart d e = cc

-- Write fails, and os.Remove too.
abbrev full : Call → Bool
full write_temp = true
full remove_temp = true
full _ = false

put-full :
    put tagged slashed (disk full) seven hello []
    ≡ (err (io_error write_temp), ((disk full).temp, bytes "PGO") ∷ [])
unfolding put read_file object_path write_object stage abandon
put-full = refl

put-hello : put tagged slashed (disk never) seven hello [] ≡ (ok (tagged hello), one_object)
unfolding put read_file object_path write_object stage envelope rename_file remove_file text_eq
put-hello = refl

has-hello : has tagged slashed never seven (tagged hello) one_object ≡ ok true
unfolding has read_file object_path text_eq
has-hello = refl

get-hello : get tagged slashed never seven (tagged hello) one_object ≡ ok hello
unfolding get read_file object_path text_eq open_object envelope get_uint32 put_uint32
get-hello = refl

nothing_there : read_file (disk full).temp [] ≡ none
unfolding read_file
nothing_there = refl

put-get_example :
    Kept tagged slashed (disk full) seven hello [] (put tagged slashed (disk full) seven hello [])
put-get_example =
    put-get tagged slashed (disk full) seven hello [] (omega arith) seven-IsCollisionFree disk-apart
      nothing_there no_files-IsStore

get_sound_example :
    (tagged hello ≡ tagged hello)
    × ((raw : List ℕ) × (read_file (object_path tagged slashed seven (tagged hello)) one_object
          ≡ some raw)
        × (get_uint32 (drop 4 raw) ≡ 7))
get_sound_example = get_sound tagged slashed never seven (tagged hello) one_object hello get-hello

found :
    read_file (object_path tagged slashed eight (tagged hello)) one_object ≡ some (envelope 7 hello)
unfolding read_file object_path text_eq
found = refl

epochs_differ : eight.epoch ≢ seven.epoch
epochs_differ = omega arith

put-get_other_epoch_example :
    (put tagged slashed (disk never) eight hello one_object ≡ (ok (tagged hello), one_object))
    × (get tagged slashed never eight (tagged hello) one_object
        ≡ err (epoch_mismatch (tagged hello) 8 7))
put-get_other_epoch_example =
    put-get_other_epoch tagged slashed (disk never) seven eight hello one_object refl (omega arith)
      epochs_differ found
