-- ===== src/FileSystem/Directory.antt =====
-- Listing the directory by repeated dir_read.
use ece_391_fall.Prelude.{
  slt_zero, slt_small, lt→ltb, le→ltb, ap, ℕ, zero, suc, ◌+◌, ◌*◌, ◌^◌, ◌<◌, ◌≤◌, ◌≡◌, ◌≢◌, ◌⊎◌,
  refl, List, [], ◌∷◌, ◌++◌, arith, ◌==◌, ◌||◌, false, slt,
}
use ece_391_fall.Memory.{Mem}
use ece_391_fall.Memory.Copy.{copied, memcpy_lem}
use ece_391_fall.FileSystem.{FileSystem, num_dir_entries, dir_entry, dir_read}

-- The arguments that dir_read accepts.
abbrev pub DirArgs : ℕ → ℕ → ℕ → Type 0
DirArgs fd buf nbytes = (fd < 8) × (buf ≢ 0) × (nbytes < 2 ^ 31)

-- The buffer of 32 bytes does not meet the boot block's count and its entries.
abbrev pub DirPlaced : FileSystem → Mem → ℕ → Type 0
DirPlaced fs m buf =
    (buf + 32 ≤ fs.boot_block_ptr) ⊎ (fs.boot_block_ptr + 64 + 64 * num_dir_entries fs m ≤ buf)

DirArgs-pass :
    (fd buf nbytes : ℕ)
    → DirArgs fd buf nbytes
    → (slt fd 0 || slt 7 fd || buf == 0 || slt nbytes 0) ≡ false
DirArgs-pass fd buf nbytes (lt, nonnull, small) =
    rw
      (slt_zero fd (omega arith), slt_small 7 fd (omega arith) (omega arith), slt_zero nbytes small)
      (ground arith)

-- dir_read delivers the name of the entry at the index and moves on; past the last entry it
-- returns 0 and starts again.
pub dir_read_lem :
    (fs : FileSystem) (m : Mem) (fd buf nbytes : ℕ)
    → DirArgs fd buf nbytes
    → DirPlaced fs m buf
    → num_dir_entries fs m < 2 ^ 32
    → let out = dir_read fs m fd buf nbytes in
      (fs.file_idx < num_dir_entries fs m
        → (out.0 ≡ 32)
          × (out.1 ≡ record fs { file_idx = fs.file_idx + 1 })
          × ((a : ℕ) → out.2 a ≡ copied m buf (dir_entry fs fs.file_idx) 32 a))
      × (num_dir_entries fs m ≤ fs.file_idx → out ≡ (0, record fs { file_idx = 0 }, m))
unfolding dir_read
dir_read_lem fs m fd buf nbytes args placed small =
    rw (DirArgs-pass fd buf nbytes args, dir_read)
      (
        λ lt.
            rw (lt→ltb _ _ lt, dir_read)
              (
                refl,
                ap (λ x. record fs { file_idx = x }) (omega arith),
                λ a. memcpy_lem m buf (dir_entry fs fs.file_idx) 32 a (omega (arith, placed)),
              ),
        λ le. rw (le→ltb _ _ le, dir_read),
      )

-- The results of `k` calls in a row, with the state after them.
abbrev pub dir_reads : ℕ → FileSystem → Mem → ℕ → ℕ → ℕ → List ℕ × FileSystem × Mem
dir_reads zero fs m fd buf nbytes = ([], fs, m)
dir_reads (suc k) fs m fd buf nbytes =
    let (ret, fs', m') = dir_read fs m fd buf nbytes in
    let (rets, fs'', m'') = dir_reads k fs' m' fd buf nbytes in (ret ∷ rets, fs'', m'')

abbrev pub replicate : ℕ → ℕ → List ℕ
replicate zero x = []
replicate (suc k) x = x ∷ replicate k x

-- What a call leaves of the entries' number and of the buffer's place.
dir_read-keeps :
    (fs : FileSystem) (m : Mem) (buf i : ℕ) (m' : Mem)
    → DirPlaced fs m buf
    → ((a : ℕ) → m' a ≡ copied m buf (dir_entry fs i) 32 a)
    → num_dir_entries fs m' ≡ num_dir_entries fs m
dir_read-keeps fs m buf i m' placed h =
    let b : ℕ = fs.boot_block_ptr in ground (arith, h b, h (b + 1), h (b + 2), h (b + 3))

-- With good arguments and a buffer apart from the directory, dir_read from any position on returns
-- 32 once for each entry that is left, then 0 for the end of the
-- directory, and is back at the first entry.
pub dir_reads_complete :
    (k : ℕ) (fs : FileSystem) (m : Mem) (fd buf nbytes : ℕ)
    → DirArgs fd buf nbytes
    → DirPlaced fs m buf
    → num_dir_entries fs m < 2 ^ 32
    → fs.file_idx + k ≡ num_dir_entries fs m
    → let out = dir_reads (suc k) fs m fd buf nbytes in
      (out.0 ≡ replicate k 32 ++ 0 ∷ []) × (out.1 ≡ record fs { file_idx = 0 })
dir_reads_complete zero fs m fd buf nbytes args placed small e =
    rw ((dir_read_lem fs m fd buf nbytes args placed small).1 (omega arith)) (refl, refl)
dir_reads_complete (suc k) fs m fd buf nbytes args placed small e =
    let (ret, fs', h) = (dir_read_lem fs m fd buf nbytes args placed small).0 (omega arith) in
    let same : num_dir_entries fs (dir_read fs m fd buf nbytes).2 ≡ num_dir_entries fs m =
      dir_read-keeps fs m buf fs.file_idx _ placed h in
    let rest =
      dir_reads_complete k (record fs { file_idx = fs.file_idx + 1 })
        (dir_read fs m fd buf nbytes).2 fd buf nbytes args (rw same placed) (rw same small)
        (rw same (omega arith)) in
    rw (ret, fs') (ap (λ x. 32 ∷ x) rest.0, rest.1)
