-- ===== src/Fs/Handle/Resize.antt =====
-- `FileHandle::truncate` and `enlarge_file` of src/base/SimpleFlashFsBase.h: the length that they leave.
use simpleflashfs.Prelude.{
  ℕ, zero, suc, ◌+◌, ◌-◌, ◌*◌, ◌/◌, ◌%◌, ◌^◌, ◌<◌, ◌≡◌, refl, ap, ◌∙◌, inl, inr, arith, true, false,
  not, ◌&&◌, ◌||◌, Option, none, some, Bool-cases, leb, ltb, ◌==◌, if◌then◌else◌,
}
use simpleflashfs.PageSet.{size}
use simpleflashfs.Fs.Types.{new, Fs, File}
use simpleflashfs.Fs.Inode.{get_inode_data_space_size}
use simpleflashfs.Fs.Alloc.{get_max_file_size}
use simpleflashfs.Fs.Action.{need}
use simpleflashfs.Fs.Action.Post.{Meets, meets, chain, weaken, branch}
use simpleflashfs.Fs.Action.Keeps.{Keeps, keeps, follow, joined}
use simpleflashfs.Fs.Store.{
  count_valid_pages, insert_page, with_pages, claim_data_page, allocate_rounds,
  allocate_new_data_pages,
}
use simpleflashfs.Fs.Store.Length.{SameHeader, allocate_new_data_pages-Steady}
use simpleflashfs.Fs.Write.{enlarge_file}
use simpleflashfs.Fs.Handle.{shrink, truncate, seek}

module _ {S : Type 0} where
  -- The length and the position of the file.
  abbrev pub Long : ℕ → ℕ → File → Fs S → Type 0
  Long len pos file fs = (file.inode.file_len ≡ len) × (file.pos ≡ pos)

  need-same :
      (page : Option ℕ) (file : File) (fs : Fs S)
      → Keeps (λ p file' fs'. file' ≡ file) (Long file.inode.file_len file.pos) (need page file fs)
  need-same none file fs = keeps (refl, refl)
  need-same (some p) file fs = keeps refl

  claim_data_page-same :
      (file : File) (fs : Fs S)
      → Keeps
          (λ p file' fs'. file' ≡ file)
          (Long file.inode.file_len file.pos)
          (claim_data_page file fs)
  unfolding claim_data_page
  claim_data_page-same file fs = need-same _ file _

  allocate_rounds-Long :
      (left page_idx : ℕ) (file : File) (fs : Fs S)
      → Keeps
          (λ a. Long file.inode.file_len file.pos)
          (Long file.inode.file_len file.pos)
          (allocate_rounds left page_idx file fs)
  unfolding allocate_rounds
  allocate_rounds-Long zero page_idx file fs = keeps tt
  allocate_rounds-Long (suc left) page_idx file fs =
      elim (Bool-cases (ltb page_idx (count_valid_pages file.inode.data_pages))) [
        | inl e ↦ rw (e, allocate_rounds) (keeps (refl, refl))
        | inr e ↦
            rw (e, allocate_rounds)
              (follow (claim_data_page-same file fs) (λ p file' fs' same.
                let ps = file.inode.data_pages in
                allocate_rounds-Long left page_idx
                  (with_pages file
                    (insert_page ps (count_valid_pages ps) (record { page_id = p; state = new })))
                  fs'))
      ]

  abbrev pub Unchanged : File → Fs S → File → Fs S → Type 0
  Unchanged file fs file' fs' =
      SameHeader fs.header file' fs' × Long file.inode.file_len file.pos file' fs'

  allocates :
      (page_idx : ℕ) (file : File) (fs : Fs S)
      → Meets
          (λ a. Unchanged file fs)
          (Unchanged file fs)
          (allocate_new_data_pages page_idx file fs)
  unfolding allocate_new_data_pages
  allocates page_idx file fs =
      weaken
        (joined
          (allocate_new_data_pages-Steady page_idx fs.header file.pos file.inode.file_len 0 file fs
            (refl, refl, refl, omega arith))
          (allocate_rounds-Long (page_idx + 2) page_idx file fs))
        (λ a file' fs' (steady, long). (steady.0.0, long))

  enlarge_file-Resized :
      (amount : ℕ) (file : File) (fs : Fs S)
      → Meets
          (λ a file' fs'.
            (file'.inode.file_len ≡ (file.inode.file_len + amount) % 2 ^ 64)
            × (file'.pos ≡ file.pos)
            × (fs'.header ≡ fs.header))
          (Unchanged file fs)
          (enlarge_file amount file fs)
  unfolding enlarge_file
  enlarge_file-Resized amount file fs =
      let target = (file.inode.file_len + amount) % 2 ^ 64 in
      let space = get_inode_data_space_size fs.header file.inode in
      let full =
        leb (size fs.free_data_pages * fs.header.page_size % 2 ^ 64) amount
        || leb (get_max_file_size fs.header) target in
      chain {Q = λ a. Unchanged file fs}
        (branch full _ _ file fs (λ e. meets (refl, (refl, refl)))
          (λ e.
            branch (leb target space) _ _ file fs (λ e. meets (refl, (refl, refl)))
              (λ e. allocates (target / fs.header.page_size) file fs)))
        (λ a file1 fs1 (header, (long, at)).
          meets (ap (λ (l : ℕ). (file.inode.file_len + amount) % 2 ^ 64) long, at, header))

  -- `truncate` of a handle that is connected, to a length of 64 bits: it ends without a fault. Where
  -- it succeeds, the file has that length, and a position that was not behind it is kept; where it
  -- quits, the file has its length and its position from before. The header never changes.
  pub truncate_lem :
      (n : ℕ) (file : File) (fs : Fs S)
      → file.connected ≡ true
      → n < 2 ^ 64
      → Meets
          (λ a file' fs'.
            (file'.inode.file_len ≡ n)
            × ((leb file.pos n && not (file'.pos == file.pos)) ≡ false)
            × (fs'.header ≡ fs.header))
          (Unchanged file fs)
          (truncate n file fs)
  unfolding truncate shrink
  truncate_lem n file fs connected word =
      branch (not file.connected) _ _ file fs (λ e. absurd (ground (arith, e, connected)))
        (λ e.
          branch (n == file.inode.file_len) _ _ file fs
            (λ same. meets (ground (arith, same), ground arith, refl))
            (λ other.
              branch (ltb file.inode.file_len n) _ _ file fs
                (λ longer.
                  let less : file.inode.file_len < n = ground (arith, longer) in
                  let to : (file.inode.file_len + (n - file.inode.file_len)) % 2 ^ 64 ≡ n =
                    omega (arith, less) in
                  weaken (enlarge_file-Resized (n - file.inode.file_len) file fs)
                    (λ a file' fs' (len, at, header). (len ∙ to, ground (arith, at), header)))
                (λ shorter. meets (refl, ground arith, refl))))

  -- `seek` to a position of 64 bits ends without a fault. Where it succeeds, the handle is at the
  -- position; the length stays for one that is not behind the end, and otherwise is the position less
  -- one. Where it quits, the length and the position are those from before. The header never changes.
  pub seek_lem :
      (pos : ℕ) (file : File) (fs : Fs S)
      → pos < 2 ^ 64
      → Meets
          (λ a file' fs'.
            (file'.pos ≡ pos)
            × (file'.inode.file_len
                ≡ (if leb pos file.inode.file_len then file.inode.file_len else pos - 1))
            × (fs'.header ≡ fs.header))
          (Unchanged file fs)
          (seek pos file fs)
  unfolding seek
  seek_lem pos file fs word =
      let len = file.inode.file_len in
      chain
        {Q = λ a file' fs'.
          (file'.inode.file_len ≡ (if leb pos len then len else pos - 1))
          × (fs'.header ≡ fs.header)}
        (branch (leb pos len) _ _ file fs (λ near. rw near (meets (refl, refl)))
          (λ far.
            let behind : len < pos = ground (arith, far) in
            let to : (len + (pos + 2 ^ 64 - len - 1) % 2 ^ 64) % 2 ^ 64 ≡ pos - 1 =
              omega (arith, behind) in
            weaken (enlarge_file-Resized ((pos + 2 ^ 64 - len - 1) % 2 ^ 64) file fs)
              (λ a file' fs' (long, _, header). (long ∙ to ∙ ground (arith, far), header))))
        (λ a file1 fs1 (long, header). meets (refl, long, header))
