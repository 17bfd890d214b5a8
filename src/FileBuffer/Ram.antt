-- ===== src/FileBuffer/Ram.antt =====
-- A file in memory, with the eof of FileHandle in src/base/SimpleFlashFsBase.h, which meets what src_2face/SimpleFlashFsFileBuffer.cc needs of a FileInterface.
use simpleflashfs.Prelude.{
  ℕ, ◌+◌, ◌-◌, ◌≤◌, ◌≡◌, refl, arith, true, false, List, [], ◌++◌, length, take, replicate, leb,
  ◌==◌, if◌then◌else◌, leb_of_le,
}
use simpleflashfs.FileBuffer.Types.{FileInterface}
use simpleflashfs.FileBuffer.{copied}
use simpleflashfs.FileBuffer.Files.{IsFile, rest_of}

pub record Ram : Type 0 where
  pub bytes : List ℕ
  pub at : ℕ

abbrev pub sought : Ram → ℕ → Ram
sought f p =
    if leb p (length f.bytes)
    then record f { at = p }
    else record { bytes = f.bytes ++ replicate (p - length f.bytes) 0; at = p }

abbrev pub ram : FileInterface Ram
ram = record {
  not_valid = λ f. false;
  write = λ f bytes.
      (record { bytes = copied f.bytes f.at bytes; at = f.at + length bytes }, length bytes);
  read = λ f n. (record f { at = f.at + length (rest_of f.bytes f.at n) }, rest_of f.bytes f.at n);
  flush = λ f. (f, true);
  tellg = λ f. f.at;
  file_size = λ f. length f.bytes;
  eof = λ f. if length f.bytes == 0 then true else f.at == length f.bytes - 1;
  seek = λ f p. (sought f p, true);
  delete_file = λ f. (record { bytes = []; at = 0 }, true);
  rename_file = λ f name. (f, true);
  truncate = λ f n. (record f { bytes = take n f.bytes }, true);
  get_file_name = λ f. [];
  is_append_mode = λ f. false;
}

pub ram-sought : (f : Ram) (p : ℕ) → p ≤ length f.bytes → sought f p ≡ record f { at = p }
ram-sought f p h = rw (leb_of_le p (length f.bytes) h) refl

pub sought-at : (f : Ram) (p : ℕ) → (sought f p).at ≡ p
sought-at f p = ground arith

abbrev pub ram-IsFile : IsFile ram
ram-IsFile = record {
  content = λ f. f.bytes;
  file_size_lem = λ f. refl;
  eof_lem = λ f e. ground (arith, e);
  seek_true = λ f p h. refl;
  tellg-seek = λ f p h. sought-at f p;
  content-seek = λ f p h. rw (ram-sought f p h) refl;
  read_bytes = λ f n h. refl;
  tellg-read = λ f n h. refl;
  content-read = λ f n. refl;
  content-write = λ f bytes a h e. refl;
  tellg-write = λ f bytes a h e. refl;
  content-flush = λ f. refl;
  is_append_mode-seek = λ f p. refl;
  is_append_mode-write = λ f bytes. refl;
}
