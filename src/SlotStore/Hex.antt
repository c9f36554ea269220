-- ===== src/SlotStore/Hex.antt =====
-- `PrebuiltOwner` of slotstore.go: the sentinel owner of a pre-built slot, `prebuilt:%08x`.
use native.Mathlib.Nat.{pow-suc}
use pandastack_ai.Common.{
  ℕ, zero, suc, ◌+◌, ◌/◌, ◌%◌, ◌^◌, ◌<◌, ◌≡◌, refl, [], ◌∷◌, ◌++◌, Text, codes, ltb, arith,
  if◌then◌else◌,
}

-- The lower-case hexadecimal digit of a number below 16.
hex_digit : ℕ → ℕ
hex_digit d = if ltb d 10 then 48 + d else 87 + d

-- The lowest `k` digits of `n`, highest first, padded with zeros.
hex : ℕ → ℕ → Text
unfolding hex_digit
hex zero n = []
hex (suc k) n = hex k (n / 16) ++ (hex_digit (n % 16) ∷ [])

unfoldable pub prebuilt_owner : ℕ → Text
unfolding hex
prebuilt_owner idx = codes "prebuilt:" ++ hex 8 idx

hex_digit_inj : (a b : ℕ) → a < 16 → b < 16 → hex_digit a ≡ hex_digit b → a ≡ b
unfolding hex_digit
hex_digit_inj a b ha hb e = ground arith

snoc_inj : {a b : ℕ} (xs ys : Text) → xs ++ (a ∷ []) ≡ ys ++ (b ∷ []) → (xs ≡ ys) × (a ≡ b)
snoc_inj [] [] e = ground arith
snoc_inj [] (y ∷ []) e = ground arith
snoc_inj [] (y ∷ z ∷ ys) e = ground arith
snoc_inj (x ∷ []) [] e = ground arith
snoc_inj (x ∷ z ∷ xs) [] e = ground arith
snoc_inj {a} {b} (x ∷ xs) (y ∷ ys) e = ground (arith, snoc_inj {a = a} {b = b} xs ys)

hex_inj : (k m n : ℕ) → m < 16 ^ k → n < 16 ^ k → hex k m ≡ hex k n → m ≡ n
unfolding hex
hex_inj zero m n hm hn e = omega arith
hex_inj (suc k) m n hm hn e =
    let (front, last) = snoc_inj (hex k (m / 16)) (hex k (n / 16)) e in
    let up =
      hex_inj k (m / 16) (n / 16) (omega (arith, pow-suc 16 k)) (omega (arith, pow-suc 16 k))
        front in
    let low = hex_digit_inj (m % 16) (n % 16) (omega arith) (omega arith) last in omega arith

-- Two slots below 2^32 never share a sentinel owner.
pub prebuilt_owner_inj :
    (m n : ℕ) → m < 2 ^ 32 → n < 2 ^ 32 → prebuilt_owner m ≡ prebuilt_owner n → m ≡ n
unfolding prebuilt_owner
prebuilt_owner_inj m n hm hn e = hex_inj 8 m n (omega arith) (omega arith) (ground arith)

owner_of_slot_18 : prebuilt_owner 0x12 ≡ codes "prebuilt:00000012"
unfolding prebuilt_owner
owner_of_slot_18 = refl
