-- ===== src/Fs/Page/Copies.antt =====
-- Copies into a zero-filled page one after the other, and out of it again.
use simpleflashfs.Prelude.{
  ℕ, suc, ◌+◌, ◌-◌, ◌≤◌, ◌≡◌, refl, sym, ap, arith, some, List, [], ◌∷◌, ◌++◌, length, take, drop,
  length-append, length-replicate, take-append_self, take-append_le, drop-append_self,
  drop-replicate, append_assoc, leb_of_le, length-take, length-drop,
}
use simpleflashfs.Fs.Page.{put, split, zero_page}

-- The next bytes of a page.
pub split-append :
    (n : ℕ) (bytes rest : List ℕ) → length bytes ≡ n → split n (bytes ++ rest) ≡ some (bytes, rest)
unfolding split
split-append n bytes rest e =
    rw
      (
        leb_of_le n (length (bytes ++ rest)) (omega (arith, length-append bytes rest)),
        take-append_self bytes rest n e,
        drop-append_self bytes rest n e,
      )
      refl

pub drop-append_add : (xs ys : List ℕ) (k : ℕ) → drop (length xs + k) (xs ++ ys) ≡ drop k ys
drop-append_add [] ys k = let e : 0 + k ≡ k = omega arith in rw e refl
drop-append_add (x ∷ xs) ys k =
    let e : suc (length xs) + k ≡ suc (length xs + k) = omega arith in
    rw e (drop-append_add xs ys k)

-- A copy behind what is written already leaves zeros behind it.
pub put-zeros :
    (done bytes : List ℕ) (room pos : ℕ)
    → length done ≡ pos
    → length bytes ≤ room
    → put pos bytes (done ++ zero_page room)
      ≡ some ((done ++ bytes) ++ zero_page (room - length bytes))
unfolding put
put-zeros done bytes room pos e fits =
    rw
      (
        leb_of_le (pos + length bytes) (length (done ++ zero_page room))
            (omega (arith, length-append done (zero_page room), length-replicate {A = ℕ} room 0)),
        take-append_self done (zero_page room) pos e,
        ← e,
        drop-append_add done (zero_page room) (length bytes),
        drop-replicate {A = ℕ} (length bytes) room 0,
      )
      (ap some (sym (append_assoc done bytes (zero_page (room - length bytes)))))

-- A copy keeps the size of the page, and leaves everything outside of it alone.
pub put_lem :
    (pos : ℕ) (bytes page : List ℕ)
    → pos + length bytes ≤ length page
    → (p : List ℕ) × (put pos bytes page ≡ some p)
      × (p ≡ take pos page ++ (bytes ++ drop (pos + length bytes) page))
      × (length p ≡ length page)
unfolding put
put_lem pos bytes page h = (
  take pos page ++ (bytes ++ drop (pos + length bytes) page),
  rw (leb_of_le (pos + length bytes) (length page) h) refl,
  refl,
  omega (
    arith,
    length-append (take pos page) (bytes ++ drop (pos + length bytes) page),
    length-append bytes (drop (pos + length bytes) page),
    length-take pos page,
    length-drop (pos + length bytes) page,
  ),
)

-- Fewer bytes than stand there.
pub split-take :
    (n : ℕ) (bytes rest : List ℕ)
    → n ≤ length bytes
    → (r : List ℕ) × (split n (bytes ++ rest) ≡ some (take n bytes, r))
unfolding split
split-take n bytes rest h = (
  drop n (bytes ++ rest),
  rw
      (
        leb_of_le n (length (bytes ++ rest)) (omega (arith, length-append bytes rest)),
        take-append_le bytes rest n h,
      )
      refl,
)
