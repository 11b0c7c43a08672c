-- ===== src/FileSystem/Sequential.antt =====
-- read_data of a file in several steps.
use ece_391_fall.Prelude.{
  ℕ, ◌+◌, ◌-◌, ◌*◌, ◌/◌, ◌%◌, ◌^◌, ◌<◌, ◌≤◌, ◌≡◌, ◌≢◌, ◌⊎◌, sym, ◌∙◌, subst, arith, leb, ltb, ◌&&◌,
  if◌then◌else◌,
}
use ece_391_fall.Memory.{Mem}
use ece_391_fall.FileSystem.{FileSystem, num_inodes, inode_length, data_block, read_data}
use ece_391_fall.FileSystem.ReadData.{
  file_byte, filled, Placed, wanted, read_data-filled, data_block_same,
}

-- A read whose destination misses the file leaves the file as it was.
module _ (fs : FileSystem) (m m' : Mem) (inode offset buf j n : ℕ)
    (placed : Placed fs m inode offset buf n) (le : j ≤ n)
    (h : (a : ℕ) → m' a ≡ filled fs m inode offset buf j a) where
  kept_length : inode_length fs m' inode ≡ inode_length fs m inode
  kept_length =
      let b : ℕ = fs.inode_ptr + 4096 * inode in
      ground (arith, placed.node_apart, h b, h (b + 1), h (b + 2), h (b + 3))

  kept_block : (i : ℕ) → i < 1023 → data_block fs m' inode i ≡ data_block fs m inode i
  kept_block i lt = data_block_same fs m inode offset buf n placed m' j i le lt h

  kept_byte : (p : ℕ) → p < 1023 * 4096 → file_byte fs m' inode p ≡ file_byte fs m inode p
  kept_byte p lt =
      let i : ℕ = p / 4096 in
      let inside : i < 1023 = omega arith in
      let same : data_block fs m' inode i ≡ data_block fs m inode i = kept_block i inside in
      rw same (ground (arith, placed.block_apart i inside, h (data_block fs m inode i + p % 4096)))

-- A read that stays inside the file.
pub read_data_exact :
    (fs : FileSystem) (m : Mem) (inode offset buf n : ℕ)
    → inode < num_inodes fs m
    → buf ≢ 0
    → 0 < n
    → offset + n ≤ inode_length fs m inode
    → inode_length fs m inode < 2 ^ 32
    → Placed fs m inode offset buf n
    → ((read_data fs m inode offset buf n).0 ≡ n)
      × ((a : ℕ) → (read_data fs m inode offset buf n).1 a ≡ filled fs m inode offset buf n a)
read_data_exact fs m inode offset buf n good nonnull pos inside size placed =
    let whole : wanted fs m inode offset n ≡ n = omega arith in
    subst
      (λ (x : ℕ).
        ((read_data fs m inode offset buf n).0 ≡ x)
        × ((a : ℕ) → (read_data fs m inode offset buf n).1 a ≡ filled fs m inode offset buf x a))
      whole
      (read_data-filled fs m inode offset buf n good nonnull (omega arith) size pos (omega arith)
        (subst (Placed fs m inode offset buf) (sym whole) placed))

Placed-first :
    {fs : FileSystem} {m : Mem} {inode offset buf : ℕ} (j k : ℕ)
    → Placed fs m inode offset buf (j + k)
    → Placed fs m inode offset buf j
Placed-first j k placed = record {
  small = omega (arith, placed.small);
  node_apart = ground (arith, placed.node_apart);
  block_apart = λ i lt. ground (arith, placed.block_apart i lt);
}

-- The second part of a buffer misses the file too, also once the first part is filled.
Placed-second :
    (fs : FileSystem) (m m' : Mem) (inode offset buf j k : ℕ)
    → Placed fs m inode offset buf (j + k)
    → ((i : ℕ) → i < 1023 → data_block fs m' inode i ≡ data_block fs m inode i)
    → Placed fs m' inode (offset + j) (buf + j) k
Placed-second fs m m' inode offset buf j k placed same = record {
  small = omega (arith, placed.small);
  node_apart = ground (arith, placed.node_apart);
  block_apart = λ i lt. rw (same i lt) (ground (arith, placed.block_apart i lt));
}

-- Two fills that follow one another are one.
fill_twice :
    (f g m m' : ℕ → ℕ) (offset buf j k a : ℕ)
    → m' a ≡ (if leb buf a && ltb a (buf + j) then f (offset + (a - buf)) else m a)
    → (a < buf + j + k → g (offset + j + (a - (buf + j))) ≡ f (offset + j + (a - (buf + j))))
    → (if leb (buf + j) a && ltb a (buf + j + k) then g (offset + j + (a - (buf + j))) else m' a)
      ≡ (if leb buf a && ltb a (buf + (j + k)) then f (offset + (a - buf)) else m a)
fill_twice f g m m' offset buf j k a h e = ground arith

-- A part of a file that is read in two steps, the second from where the first ended, comes out as in
-- one, if the buffer meets neither the file, its index node nor the counts of the boot block.
pub read_data-append :
    (fs : FileSystem) (m : Mem) (inode offset buf j k : ℕ)
    → inode < num_inodes fs m
    → buf ≢ 0
    → 0 < j
    → 0 < k
    → offset + (j + k) ≤ inode_length fs m inode
    → inode_length fs m inode < 2 ^ 32
    → Placed fs m inode offset buf (j + k)
    → (buf + (j + k) ≤ fs.boot_block_ptr) ⊎ (fs.boot_block_ptr + 8 ≤ buf)
    → (a : ℕ)
    → (read_data fs (read_data fs m inode offset buf j).1 inode (offset + j) (buf + j) k).1 a
      ≡ (read_data fs m inode offset buf (j + k)).1 a
read_data-append fs m inode offset buf j k good nonnull hj hk inside size placed boot a =
    let m' : Mem = (read_data fs m inode offset buf j).1 in
    let first =
      read_data_exact fs m inode offset buf j good nonnull hj (omega arith) size
        (Placed-first j k placed) in
    let both =
      read_data_exact fs m inode offset buf (j + k) good nonnull (omega arith) inside size placed in
    let b : ℕ = fs.boot_block_ptr in
    let nodes : num_inodes fs m' ≡ num_inodes fs m = ground (
      arith,
      boot,
      first.1 (b + 4),
      first.1 (b + 4 + 1),
      first.1 (b + 4 + 2),
      first.1 (b + 4 + 3),
    ) in
    let len = kept_length fs m m' inode offset buf j (j + k) placed (omega arith) first.1 in
    let blocks = kept_block fs m m' inode offset buf j (j + k) placed (omega arith) first.1 in
    let second =
      read_data_exact fs m' inode (offset + j) (buf + j) k (rw nodes good) (omega arith) hk
        (omega (arith, len)) (omega (arith, len))
        (Placed-second fs m m' inode offset buf j k placed blocks) in
    second.1 a
    ∙ fill_twice (file_byte fs m inode) (file_byte fs m' inode) m m' offset buf j k a (first.1 a)
        (λ lt.
          kept_byte fs m m' inode offset buf j (j + k) placed (omega arith) first.1 _
            (omega (arith, placed.small)))
    ∙ sym (both.1 a)
