-- ===== src/Fs/Write/Whole.antt =====
-- `write` of src/base/SimpleFlashFsBase.h as a whole.
use simpleflashfs.Prelude.{
  ℕ, ◌+◌, ◌-◌, ◌%◌, ◌^◌, ◌≤◌, ◌<◌, ◌≡◌, ◌⊎◌, refl, ◌∙◌, ap, inl, inr, min, max, arith, Bool, true,
  ◌&&◌, List, [], length, take, drop, ltb, leb, ◌==◌, length-replicate, length-take, length-drop,
  replicate, length-append, leb_of_le,
}
use simpleflashfs.Fs.Types.{Config, Fs, File}
use simpleflashfs.Fs.Page.{zero_page}
use simpleflashfs.Fs.Page.Copies.{put_lem}
use simpleflashfs.Fs.Inode.{get_inode_data_space_size}
use simpleflashfs.Fs.Action.{fault, Action}
use simpleflashfs.Fs.Action.Post.{Meets, meets, chain, branch}
use simpleflashfs.Fs.Store.Length.{SameHeader}
use simpleflashfs.Fs.Write.{
  widened, fits_inside, write_inside, write_joined, spill, write_with, write,
}
use simpleflashfs.Fs.Write.Total.{Buffered, Written, write_pages-Written}

-- The data fit in the vector that was widened for them.
inside :
    (pos n space : ℕ) (bytes : List ℕ) (b : Bool)
    → (ltb ((pos + n) % 2 ^ 64) space && b) ≡ true
    → pos + n < 2 ^ 64
    → pos + n ≤ length (widened space bytes)
inside pos n space bytes b fits word =
    let lt : (pos + n) % 2 ^ 64 < space = ground arith in
    omega (
      arith,
      lt,
      length-append bytes (replicate (space - length bytes) 0),
      length-replicate {A = ℕ} (space - length bytes) 0,
    )

longest : (a d b len : ℕ) → a + d ≡ b → max (a + d) (max a len) ≡ max b len
longest a d b len e = omega arith

module _ {S : Type 0} (config : Config S) (buffered : Buffered config) where
  write_inside-Written :
      (bytes : List ℕ) (file : File) (fs : Fs S)
      → fits_inside fs.header file (length bytes) ≡ true
      → file.pos + length bytes < 2 ^ 64
      → Meets
          (Written fs.header file.pos file.inode.file_len (length bytes))
          (SameHeader fs.header)
          (write_inside config bytes file fs)
  unfolding write_inside fits_inside
  write_inside-Written bytes file fs fits word =
      let space = get_inode_data_space_size fs.header file.inode in
      let wide = widened space file.inode.inode_data in
      let room : file.pos + length bytes ≤ length wide =
        inside file.pos (length bytes) space file.inode.inode_data _ fits word in
      let (data_bytes, e, _, _) = put_lem file.pos bytes wide room in
      rw e (meets (refl, refl, refl, refl, refl))

  -- A file without data in its inode: there is no further call.
  write_with-Written :
      (rec : List ℕ → Action S ℕ) (bytes : List ℕ) (file : File) (fs : Fs S)
      → length file.inode.inode_data ≡ 0
      → 0 < fs.header.page_size
      → file.pos + length bytes < 2 ^ 64
      → Meets
          (Written fs.header file.pos file.inode.file_len (length bytes))
          (SameHeader fs.header)
          (write_with config rec bytes file fs)
  unfolding write_with
  write_with-Written rec bytes file fs empty wide word =
      branch (fits_inside fs.header file (length bytes)) _ _ file fs
        (λ e. write_inside-Written bytes file fs e word)
        (λ e. rw empty (
          write_pages-Written config buffered bytes fs.header file.pos file.inode.file_len file fs
            (refl, refl, refl, omega arith) wide))

  write_joined-Written :
      (bytes : List ℕ) (file : File) (fs : Fs S) (k : ℕ) (page : List ℕ)
      → 0 < fs.header.page_size
      → fs.header.page_size < 2 ^ 32
      → file.pos + length bytes < 2 ^ 64
      → file.pos ≤ fs.header.page_size
      → k ≡ min (fs.header.page_size - file.pos) (length bytes)
      → length page ≡ fs.header.page_size
      → Meets
          (Written fs.header file.pos file.inode.file_len (length bytes))
          (SameHeader fs.header)
          (write_joined config
            (write_with config (λ rest. λ file fs. fault))
            bytes
            file.pos
            k
            page
            file
            fs)
  unfolding write_joined
  write_joined-Written bytes file fs k page some_size small word low amount size =
      let n = file.pos in
      let h = fs.header in
      let first = take (n + k) page in
      let size1 : length first ≡ n + k = omega (arith, length-take (n + k) page, amount, size) in
      let joined : 0 + length first ≡ n + k = omega (arith, size1) in
      let start : File = record file {
        inode = record file.inode { inode_data = [] };
        pos = 0;
        modified = true;
      } in
      let total : k + length (drop k bytes) ≡ length bytes =
        omega (arith, length-drop k bytes, amount) in
      let to : n + k + length (drop k bytes) ≡ n + length bytes = omega (arith, total) in
      chain
        (write_with-Written (λ rest. λ file fs. fault) first start fs refl some_size
          (omega (arith, size1, amount)))
        (λ written file1 fs1 (count, header1, at1, long1, modified1).
          let all : (written == n + k) ≡ true = ground (arith, count, size1) in
          rw all (
            branch (leb (n + k) h.page_size && (length bytes == k)) _ _ file1 fs1
              (λ e.
                let same : k ≡ length bytes = ground (arith, e) in
                let to : 0 + length first ≡ n + length bytes = omega (arith, size1, same) in
                meets (
                  refl,
                  header1,
                  at1 ∙ to,
                  long1 ∙ ap (λ (x : ℕ). max x file.inode.file_len) to,
                  modified1,
                ))
              (λ e.
                chain
                  (write_pages-Written config buffered (drop k bytes) h (n + k)
                    (max (n + k) file.inode.file_len) file1 fs1
                    (
                      header1,
                      at1 ∙ joined,
                      long1 ∙ ap (λ (x : ℕ). max x file.inode.file_len) joined,
                      omega arith,
                    )
                    some_size)
                  (λ m file2 fs2 (count2, header2, at2, long2, modified2). meets (
                    omega (arith, count2, total),
                    header2,
                    at2 ∙ to,
                    long2
                        ∙ longest (n + k) (length (drop k bytes)) (n + length bytes)
                            file.inode.file_len to,
                    modified2,
                  )))))

  spill-Written :
      (bytes : List ℕ) (file : File) (fs : Fs S)
      → 0 < fs.header.page_size
      → fs.header.page_size < 2 ^ 32
      → file.pos + length bytes < 2 ^ 64
      → file.pos ≤ length file.inode.inode_data
      → file.pos ≤ fs.header.page_size
      → Meets
          (Written fs.header file.pos file.inode.file_len (length bytes))
          (SameHeader fs.header)
          (spill config (write_with config (λ rest. λ file fs. fault)) bytes file fs)
  unfolding spill
  spill-Written bytes file fs some_size small word there low =
      let n = file.pos in
      let ps = fs.header.page_size in
      let left = (ps + 2 ^ 64 - n % 2 ^ 64) % 2 ^ 64 in
      let k = min left (length bytes) in
      let gap : left ≡ ps - n = omega arith in
      let (page1, e1, _, size1) =
        put_lem 0 (take n file.inode.inode_data) (zero_page ps)
          (omega (arith, length-take n file.inode.inode_data, length-replicate {A = ℕ} ps 0)) in
      let (page2, e2, _, size2) =
        put_lem n (take k bytes) page1
          (omega (arith, length-take k bytes, size1, gap, length-replicate {A = ℕ} ps 0)) in
      rw (leb_of_le n (length file.inode.inode_data) there, e1, e2)
        (write_joined-Written bytes file fs k page2 some_size small word low (omega (arith, gap))
          (size2 ∙ size1 ∙ length-replicate {A = ℕ} ps 0))

  -- Where `read` of the memory fills its buffer, the page size is from 1 to 2^32 - 1, the position and
  -- the length of the bytes have 64 bits together, and a file with data in its inode has its position
  -- within these and within a page: `write` ends without leaving a buffer. Where it does not quit, it
  -- returns the number of the bytes, the position is behind as many, the file is as long as before or
  -- ends there, and it is marked as modified. The header never changes.
  write-Written :
      (bytes : List ℕ) (file : File) (fs : Fs S)
      → 0 < fs.header.page_size
      → fs.header.page_size < 2 ^ 32
      → file.pos + length bytes < 2 ^ 64
      → (length file.inode.inode_data ≡ 0)
        ⊎ ((file.pos ≤ length file.inode.inode_data) × (file.pos ≤ fs.header.page_size))
      → Meets
          (Written fs.header file.pos file.inode.file_len (length bytes))
          (SameHeader fs.header)
          (write config bytes file fs)
  unfolding write
  write-Written bytes file fs some_size small word (inl empty) =
      write_with-Written (write_with config (λ rest. λ file fs. fault)) bytes file fs empty
        some_size word
  write-Written bytes file fs some_size small word (inr (there, low)) =
      unfold write_with in
      branch (fits_inside fs.header file (length bytes)) _ _ file fs
        (λ e. write_inside-Written bytes file fs e word)
        (λ e.
          branch (length file.inode.inode_data == 0) _ _ file fs
            (λ e.
              write_pages-Written config buffered bytes fs.header file.pos file.inode.file_len file
                fs (refl, refl, refl, omega arith) some_size)
            (λ e. spill-Written bytes file fs some_size small word there low))
