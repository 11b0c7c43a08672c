-- ===== src/FileSystem/ReadData.antt =====
-- read_data against the contents of the file: the block loop places the right bytes.
use ece_391_fall.Prelude.{
  ℕ, zero, suc, ◌+◌, ◌-◌, ◌*◌, ◌/◌, ◌%◌, ◌^◌, min, ◌<◌, ◌≤◌, ◌≡◌, ◌≢◌, ◌⊎◌, inl, inr, refl, sym,
  subst, arith, leb, ltb, ◌==◌, ◌&&◌, ◌||◌, false, if◌then◌else◌, add32, sub32, minus_one,
}
use ece_391_fall.Memory.{Mem, memcpy}
use ece_391_fall.Memory.Copy.{memcpy_lem}
use ece_391_fall.FileSystem.{
  FileSystem, num_inodes, inode_length, data_block, bytes_to_copy, copy_blocks, clamp_length,
  read_blocks, read_data,
}

-- The byte at position `p` of the file: its block is found through the index node.
abbrev pub file_byte : FileSystem → Mem → ℕ → ℕ → ℕ
file_byte fs m inode p = m (data_block fs m inode (p / 4096) + p % 4096)

-- The memory in which the `k` bytes of the file from `offset` on stand at `buf`.
abbrev pub filled : FileSystem → Mem → ℕ → ℕ → ℕ → ℕ → Mem
filled fs m inode offset buf k a =
    if leb buf a && ltb a (buf + k) then file_byte fs m inode (offset + (a - buf)) else m a

-- The buffer of `n` bytes meets neither the index node nor a block of the file, and the part that
-- is read lies in the 1023 blocks of an index node.
pub record Placed (fs : FileSystem) (m : Mem) (inode offset buf n : ℕ) : Type 0 where
  pub small : offset + n ≤ 1023 * 4096
  pub node_apart :
      (buf + n ≤ fs.inode_ptr + 4096 * inode) ⊎ (fs.inode_ptr + 4096 * inode + 4096 ≤ buf)
  pub block_apart :
      (i : ℕ)
      → i < 1023
      → (buf + n ≤ data_block fs m inode i) ⊎ (data_block fs m inode i + 4096 ≤ buf)

-- One round copies up to the end of the block or of the part that is read.
bytes_to_copy_lem :
    (offset n i so : ℕ)
    → 0 < n
    → offset + n < 2 ^ 32
    → so < 4096
    → (i ≡ offset / 4096) × (so ≡ offset % 4096) ⊎ (offset / 4096 < i) × (so ≡ 0)
    → i ≤ (offset + n - 1) / 4096
    → bytes_to_copy (offset / 4096) ((offset + n - 1) / 4096) so ((offset + n - 1) % 4096) i
      ≡ min (4096 - so) (offset + n - (i * 4096 + so))
unfolding bytes_to_copy
bytes_to_copy_lem offset n i so pos fits lt (inl h) le = ground arith
bytes_to_copy_lem offset n i so pos fits lt (inr h) le = ground arith

module _ (fs : FileSystem) (m : Mem) (inode offset buf n : ℕ)
    (placed : Placed fs m inode offset buf n) where
  file_byte_at :
      (p i r : ℕ)
      → r < 4096
      → p ≡ i * 4096 + r
      → file_byte fs m inode p ≡ m (data_block fs m inode i + r)
  file_byte_at p i r h e =
      let d : p / 4096 ≡ i = omega arith in let q : p % 4096 ≡ r = omega arith in rw (d, q)

  -- The copies so far have left the index node as it was.
  pub data_block_same :
      (m' : Mem) (k i : ℕ)
      → k ≤ n
      → i < 1023
      → ((a : ℕ) → m' a ≡ filled fs m inode offset buf k a)
      → data_block fs m' inode i ≡ data_block fs m inode i
  data_block_same m' k i le lt h =
      let a : ℕ = fs.inode_ptr + 4096 * inode + 4 + 4 * i in
      ground (arith, placed.node_apart, h a, h (a + 1), h (a + 2), h (a + 3))

  -- One round extends the part that is filled.
  round-filled :
      (m' : Mem) (k c i so a : ℕ)
      → k + c ≤ n
      → i < 1023
      → so + c ≤ 4096
      → i * 4096 + so ≡ offset + k
      → ((b : ℕ) → m' b ≡ filled fs m inode offset buf k b)
      → memcpy m' (buf + k) (data_block fs m' inode i + so) c a
        ≡ filled fs m inode offset buf (k + c) a
  round-filled m' k c i so a le lt room pos h = rw (data_block_same m' k i (omega arith) lt h) (
      ground (
        arith,
        memcpy_lem m' (buf + k) (data_block fs m inode i + so) c a
            (ground (arith, placed.block_apart i lt)),
        placed.block_apart i lt,
        h a,
        h (data_block fs m inode i + so + (a - (buf + k))),
        file_byte_at (offset + (a - buf)) i (so + (a - (buf + k))),
      ))

  -- The block loop, from a round in which `k` bytes have been placed, places all `n` of them.
  copy_blocks_lem :
      (rounds : ℕ) (m' : Mem) (so k i : ℕ)
      → 0 < n
      → ((b : ℕ) → m' b ≡ filled fs m inode offset buf k b)
      → k ≡ min n (i * 4096 + so - offset)
      → offset ≤ i * 4096 + so
      → so < 4096
      → (i ≡ offset / 4096) × (so ≡ offset % 4096) ⊎ (offset / 4096 < i) × (so ≡ 0)
      → i + rounds ≡ suc ((offset + n - 1) / 4096)
      → let out =
          copy_blocks fs inode buf
            (offset / 4096)
            ((offset + n - 1) / 4096)
            ((offset + n - 1) % 4096)
            rounds
            m'
            so
            k
            i in
        (out.0 ≡ n) × ((b : ℕ) → out.1 b ≡ filled fs m inode offset buf n b)
  unfolding copy_blocks
  copy_blocks_lem zero m' so k i pos h hk ho hs side e =
      let full : k ≡ n = omega (arith, placed.small) in
      (full, λ b. subst (λ x. m' b ≡ filled fs m inode offset buf x b) full (h b))
  copy_blocks_lem (suc rounds) m' so k i pos h hk ho hs side e =
      let c : ℕ =
        bytes_to_copy (offset / 4096) ((offset + n - 1) / 4096) so ((offset + n - 1) % 4096) i in
      let hc : c ≡ min (4096 - so) (offset + n - (i * 4096 + so)) =
        bytes_to_copy_lem offset n i so pos (omega (arith, placed.small)) hs side (omega arith) in
      let hadd : add32 k c ≡ k + c = omega (arith, placed.small, hc) in
      copy_blocks_lem rounds (memcpy m' (buf + k) (data_block fs m' inode i + so) c) 0 (add32 k c)
        (i + 1) pos
        (λ b.
          subst
            (λ x.
              memcpy m' (buf + k) (data_block fs m' inode i + so) c b
              ≡ filled fs m inode offset buf x b)
            (sym hadd)
            (round-filled m' k c i so b (omega (arith, hc)) (omega (arith, placed.small))
              (omega (arith, hc)) (omega arith) h))
        (omega (arith, hc, hadd)) (omega arith) (omega arith) (inr (omega arith, refl))
        (omega arith)

  read_blocks-filled :
      0 < n
      → ((read_blocks fs m inode offset buf n).0 ≡ n)
        × ((a : ℕ) → (read_blocks fs m inode offset buf n).1 a ≡ filled fs m inode offset buf n a)
  unfolding read_blocks
  read_blocks-filled pos =
      let last : sub32 (add32 offset n) 1 ≡ offset + n - 1 = omega (arith, placed.small) in
      subst
        (λ (x : ℕ).
          let out =
            copy_blocks fs inode buf (offset / 4096) (x / 4096) (x % 4096)
              (suc (x / 4096) - offset / 4096) m (offset % 4096) 0 (offset / 4096) in
          (out.0 ≡ n) × ((a : ℕ) → out.1 a ≡ filled fs m inode offset buf n a))
        (sym last)
        (copy_blocks_lem (suc ((offset + n - 1) / 4096) - offset / 4096) m (offset % 4096) 0
          (offset / 4096) pos (λ b. ground arith) (omega arith) (omega arith) (omega arith)
          (inl (refl, refl)) (omega arith))

-- The bytes that read_data is to deliver.
abbrev pub wanted : FileSystem → Mem → ℕ → ℕ → ℕ → ℕ
wanted fs m inode offset len = min len (inode_length fs m inode - offset)

-- For a good inode, a position inside the file, a positive length without wrap-around, and a buffer
-- that is not null and meets neither the file nor its index node, read_data returns the number
-- of bytes up to the end of the file and at most `length`, places exactly those bytes of the file
-- in the buffer, and changes nothing else.
pub read_data-filled :
    (fs : FileSystem) (m : Mem) (inode offset buf len : ℕ)
    → inode < num_inodes fs m
    → buf ≢ 0
    → offset < inode_length fs m inode
    → inode_length fs m inode < 2 ^ 32
    → 0 < len
    → offset + len < 2 ^ 32
    → Placed fs m inode offset buf (wanted fs m inode offset len)
    → ((read_data fs m inode offset buf len).0 ≡ wanted fs m inode offset len)
      × ((a : ℕ)
          → (read_data fs m inode offset buf len).1 a
            ≡ filled fs m inode offset buf (wanted fs m inode offset len) a)
unfolding read_data
read_data-filled fs m inode offset buf len good nonnull inside size pos fits placed =
    let bad : (leb (num_inodes fs m) inode || buf == 0) ≡ false = ground arith in
    let over : leb (inode_length fs m inode) offset ≡ false = ground arith in
    let part : clamp_length fs m inode offset len ≡ wanted fs m inode offset len = ground arith in
    rw (bad, over, part, read_data)
      (read_blocks-filled fs m inode offset buf _ placed (omega arith))

-- A bad inode or a null buffer is refused, and at the end of the file nothing is read; the memory
-- is left alone in each case.
pub read_data-refuses :
    (fs : FileSystem) (m : Mem) (inode offset buf len : ℕ)
    → (num_inodes fs m ≤ inode ⊎ (buf ≡ 0) → read_data fs m inode offset buf len ≡ (minus_one, m))
      × (inode < num_inodes fs m
          → buf ≢ 0
          → inode_length fs m inode ≤ offset
          → read_data fs m inode offset buf len ≡ (0, m))
unfolding read_data
read_data-refuses fs m inode offset buf len = (λ h. ground arith, λ good nonnull h. ground arith)
