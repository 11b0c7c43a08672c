-- ===== src/Tests/Files.antt =====
-- The theorems on memory, strings and the file system at the image.
use ece_391_fall.Prelude.{ℕ, zero, suc, ◌≤◌, ◌≡◌, inl, inr, refl, arith, List, [], ◌∷◌, none, some}
use ece_391_fall.Memory.{memcpy}
use ece_391_fall.Memory.Copy.{memcpy_lem}
use ece_391_fall.Strings.{chars, strlen}
use ece_391_fall.Strings.Compare.{IsBytes}
use ece_391_fall.FileSystem.{read_dentry_by_name, read_data}
use ece_391_fall.FileSystem.Lookup.{
  FirstNamed, read_dentry_by_name-FirstNamed, read_dentry_by_name-long,
}
use ece_391_fall.FileSystem.ReadData.{Placed, filled, read_data-filled}
use ece_391_fall.FileSystem.Sequential.{read_data-append}
use ece_391_fall.FileSystem.Directory.{dir_reads, dir_reads_complete}
use ece_391_fall.Tests.Images.{image, disk}

memcpy_lem_example : memcpy (λ a. a) 100 3 50 120 ≡ 23
memcpy_lem_example = memcpy_lem (λ a. a) 100 3 50 120 (inr (omega arith))

image-IsBytes : IsBytes image
image-IsBytes i = ground arith

chars-IsBytes : IsBytes (chars (b'a' ∷ []))
chars-IsBytes zero = omega arith
chars-IsBytes (suc i) = omega arith

abbrev letter_a : ℕ → ℕ
letter_a = chars (b'a' ∷ [])

read_dentry_by_name-FirstNamed_example :
    FirstNamed disk image (b'a' ∷ []) 0 1 (read_dentry_by_name disk image (some (b'a' ∷ [])))
unfolding strlen
read_dentry_by_name-FirstNamed_example =
    read_dentry_by_name-FirstNamed disk image (b'a' ∷ []) chars-IsBytes image-IsBytes (omega arith)

read_dentry_by_name-long_example : read_dentry_by_name disk image none ≡ none
read_dentry_by_name-long_example =
    read_dentry_by_name-long disk image none (λ s e. ground (arith, e))

image-Placed : (n : ℕ) → n ≤ 1000 → Placed disk image 0 10 16 n
image-Placed n h = record {
  small = omega arith;
  node_apart = inl (omega arith);
  block_apart = λ i h'. inl (ground arith);
}

read_data-filled_example :
    ((read_data disk image 0 10 16 1000).0 ≡ 290)
    × ((a : ℕ) → (read_data disk image 0 10 16 1000).1 a ≡ filled disk image 0 10 16 290 a)
read_data-filled_example =
    read_data-filled disk image 0 10 16 1000 (omega arith) (λ e. omega (arith, e)) (omega arith)
      (omega arith) (omega arith) (omega arith) (image-Placed 290 (omega arith))

read_data-append_example :
    (read_data disk (read_data disk image 0 10 16 100).1 0 110 116 50).1 130
    ≡ (read_data disk image 0 10 16 150).1 130
read_data-append_example =
    read_data-append disk image 0 10 16 100 50 (omega arith) (λ e. omega (arith, e)) (omega arith)
      (omega arith) (omega arith) (omega arith) (image-Placed 150 (omega arith)) (inl (omega arith))
      130

dir_reads_complete_example :
    let out = dir_reads 2 disk image 2 16 32 in
    (out.0 ≡ 32 ∷ 0 ∷ []) × (out.1 ≡ record disk { file_idx = 0 })
dir_reads_complete_example =
    dir_reads_complete 1 disk image 2 16 32 (omega arith, λ e. omega (arith, e), omega arith)
      (inl (omega arith)) (omega arith) refl

abbrev letter : List ℕ
letter = b'a' ∷ []
