-- ===== src/World/Flags.antt =====
-- The accomplishment flags of mp2/world.c: setting one and testing any.
use ece_391_fall.Prelude.{
  ℕ, ◌%◌, ◌/◌, ◌^◌, ◌<◌, ◌≡◌, refl, arith, Bool, true, false, not, ◌&&◌, ◌||◌, ltb, ltb→lt, ◌==◌,
  bit_and, bit_or, holds_to, holds_to_lem,
}
use ece_391_fall.World.{World, player_flag_is_set, player_set_flag}

-- The flag in the word of flags.
abbrev pub has : ℕ → ℕ → Bool
has f word = not (bit_and word (2 ^ f) == 0)

equal : Bool → Bool → Bool
equal true b = b
equal false b = not b

equal-≡ : (a b : Bool) → equal a b ≡ true → a ≡ b
unfolding equal
equal-≡ true b h = ground arith
equal-≡ false b h = ground arith

flag_test : ℕ → ℕ → ℕ → Bool
flag_test word f g =
    equal (has g (bit_or word (2 ^ f))) (f == g || has g word) && ltb (bit_or word (2 ^ f)) 32

flag_table : holds_to 32 (λ word. holds_to 5 (λ f. holds_to 5 (λ g. flag_test word f g))) ≡ true
unfolding holds_to flag_test equal
flag_table = refl

pub has-set :
    (word f g : ℕ)
    → word < 32
    → f < 5
    → g < 5
    → (has g (bit_or word (2 ^ f)) ≡ (f == g || has g word)) × (bit_or word (2 ^ f) < 32)
unfolding flag_test
has-set word f g hw hf hg =
    let t1 =
      holds_to_lem 32 (λ v. holds_to 5 (λ a. holds_to 5 (λ b. flag_test v a b))) word hw
        flag_table in
    let t2 = holds_to_lem 5 (λ a. holds_to 5 (λ b. flag_test word a b)) f hf t1 in
    let t3 = holds_to_lem 5 (λ b. flag_test word f b) g hg t2 in
    (equal-≡ _ _ (ground (arith, t3)), ltb→lt _ _ (ground (arith, t3)))

-- In a word of the five flags, a flag that was set is there, and the others are as they were.
pub player_flag_is_set-player_set_flag :
    (f g : ℕ) (w : World)
    → f < 5
    → g < 5
    → w.player_flags 0 < 32
    → player_flag_is_set g (player_set_flag f w) ≡ (f == g || player_flag_is_set g w)
unfolding player_flag_is_set player_set_flag
player_flag_is_set-player_set_flag f g w hf hg hw =
    let f0 : f / 32 ≡ 0 = omega arith in
    let g0 : g / 32 ≡ 0 = omega arith in
    let f1 : f % 32 ≡ f = omega arith in
    let g1 : g % 32 ≡ g = omega arith in
    rw (f0, g0, f1, g1) (has-set (w.player_flags 0) f g hw hf hg).0
