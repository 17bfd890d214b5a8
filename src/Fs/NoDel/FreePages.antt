-- ===== src/Fs/NoDel/FreePages.antt =====
-- The free data pages and the statistics of the scan in src_2face/SimpleFlashFsNoDel.h.
use simpleflashfs.Prelude.{
  ℕ, zero, suc, ◌+◌, ◌-◌, ◌%◌, ◌^◌, ◌≤◌, ◌<◌, ◌≡◌, ◌≢◌, refl, ◌∙◌, inl, inr, arith, false, not,
  ◌&&◌, ◌||◌, some, List, [], ◌∷◌, leb, ltb, length, if◌then◌else◌, Bool-cases, leb_of_lt,
}
use simpleflashfs.PageSet.{PageSet, no_data, empty_set, unordered_insert, clear}
use simpleflashfs.PageSet.Members.{IsValid, has}
use simpleflashfs.PageSet.Reads.{unordered_insert_lem}
use simpleflashfs.Fs.Types.{Header, File, InodeVersion}
use simpleflashfs.Fs.Flush.Unused.{uses, PagesDistinct, remove_pages_lem, empty_set-IsValid}
use simpleflashfs.Fs.Versions.{add_version, is_replaced}
use simpleflashfs.Fs.NoDel.{Scan, fill_pages, all_data_pages, count_inode, enter_inode}

fill_pages_lem :
    (left i : ℕ) (s : PageSet) (w : ℕ)
    → i + left ≤ no_data
    → IsValid s
    → ((x : ℕ) → (has s x && leb i x) ≡ false)
    → IsValid (fill_pages left i s)
      × (has (fill_pages left i s) w ≡ (has s w || (leb i w && ltb w (i + left))))
unfolding fill_pages
fill_pages_lem zero i s w small v below = (v, ground arith)
fill_pages_lem (suc left) i s w small v below =
    let new : has s i ≡ false = ground (arith, below i) in
    let (v1, has1) = unordered_insert_lem s i w v (omega arith) new in
    let (v2, has2) = fill_pages_lem left (i + 1) (unordered_insert i s) w (omega arith) v1 (λ x.
      let (_, hasx) = unordered_insert_lem s i x v (omega arith) new in
      ground (arith, hasx, below x)) in
    (v2, ground (arith, has1, has2))

-- For a filesystem of 1 to 2^32 - 1 pages, of which the header page and the inode pages are a part,
-- the set that the scan starts from is there, is valid, and has the data pages: those from the number
-- of inode pages on and below the number of pages less one.
all_data_pages_lem :
    (h : Header) (s : PageSet) (w : ℕ)
    → 0 < h.filesystem_size
    → h.filesystem_size < 2 ^ 32
    → h.max_inodes < h.filesystem_size
    → (free : PageSet) × (all_data_pages h s ≡ some free)
      × IsValid free
      × (has free w ≡ (leb h.max_inodes w && ltb (w + 1) h.filesystem_size))
unfolding all_data_pages clear
all_data_pages_lem h s w some_pages small inodes =
    let last : (h.filesystem_size + 2 ^ 64 - 1) % 2 ^ 64 ≡ h.filesystem_size - 1 = omega arith in
    let (v, member) =
      fill_pages_lem (h.filesystem_size - 1 - h.max_inodes) h.max_inodes empty_set w (omega arith)
        empty_set-IsValid (λ x. refl) in
    rw (last, leb_of_lt (2 ^ 32) (h.filesystem_size - 1) (omega arith))
      (_, refl, v, member ∙ ground arith)

length-add :
    (file : File) (ivs : List InodeVersion)
    → length (add_version file ivs) ≡ length ivs + (if is_replaced file ivs then 0 else 1)
unfolding add_version is_replaced
length-add file [] = refl
length-add file (iv ∷ ivs) = ground (arith, length-add file ivs)

module _ {S : Type 0} where
  -- An inode that the scan enters: where the inodes in use have been as many as the entries of the
  -- store of versions, they still are, and the inodes counted in use or as trash are one more. The
  -- free data pages stay a valid set, and lose the pages of the inode alone, if its page numbers are
  -- below NO_DATA and none stands twice.
  enter_inode_lem :
      (file : File) (s : Scan S) (w : ℕ)
      → s.stat.used_inodes ≡ length s.fs.iv_storage
      → IsValid s.fs.free_data_pages
      → PagesDistinct file.inode.data_pages
      → w ≢ no_data
      → let s' = enter_inode file s in
        (s'.stat.used_inodes ≡ length s'.fs.iv_storage)
        × (s'.stat.used_inodes + s'.stat.trash_inodes
            ≡ suc (s.stat.used_inodes + s.stat.trash_inodes))
        × IsValid s'.fs.free_data_pages
        × (has s'.fs.free_data_pages w
            ≡ (not (uses file.inode.data_pages w) && has s.fs.free_data_pages w))
  unfolding enter_inode count_inode
  enter_inode_lem file s w counted v d h =
      let (v', member) = remove_pages_lem file.inode.data_pages s.fs.free_data_pages w d h v in
      let size = length-add file s.fs.iv_storage in
      elim (Bool-cases (is_replaced file s.fs.iv_storage)) [
        | inl e ↦ rw e (omega (arith, counted, rw e at size), omega arith, v', member)
        | inr e ↦ rw e (omega (arith, counted, rw e at size), omega arith, v', member)
      ]
