-- ===== src/Wire/Frames.antt =====
-- proto.go of vsockwire: frames survive the wire, and nothing else is taken for a frame.
use pandastack_ai.Common.{
  ℕ, ◌+◌, ◌*◌, ◌/◌, ◌%◌, ◌^◌, ◌<◌, ◌≤◌, ◌≡◌, refl, sym, ap, ◌∙◌, inl, inr, Bool, true, false, not,
  ◌||◌, subst, none, some, [], ◌∷◌, ◌++◌, length, take, drop, All, take-append_length,
  drop-append_length, take-append-drop, length-take, length-append, ltb, ◌==◌, Bool-cases, arith,
}
use mathlib.Core.List.{append_assoc}
use pandastack_ai.Wire.{
  Bytes, max_payload, header, put_uint32, write_frame, Read, ReadError, read_frame, read_payload,
}

-- A writer that takes every byte.
abbrev pub append : Bytes → Bytes → Bool × Bytes
append bs w = (true, w ++ bs)

be_value :
    (n : ℕ)
    → n < 2 ^ 32
    → (n / 2 ^ 24 % 2 ^ 8) * 2 ^ 24
        + (n / 2 ^ 16 % 2 ^ 8) * 2 ^ 16
        + (n / 2 ^ 8 % 2 ^ 8) * 2 ^ 8
        + n % 2 ^ 8
      ≡ n
be_value n h = omega arith

byte : (op : ℕ) → op < 2 ^ 8 → op % 2 ^ 8 ≡ op
byte op h = omega arith

fits : (payload : Bytes) → length payload ≤ max_payload → ltb max_payload (length payload) ≡ false
fits payload h = ground arith

enough : (payload rest : Bytes) → ltb (length (payload ++ rest)) (length payload) ≡ false
enough payload rest = ground (arith, length-append payload rest)

read_payload-append :
    (op : ℕ) (payload rest : Bytes)
    → length payload ≤ max_payload
    → read_payload op (length payload) (payload ++ rest) ≡ Read.frame op payload rest
unfolding read_payload
read_payload-append op payload rest h =
    rw
      (
        fits payload h,
        enough payload rest,
        take-append_length payload rest (length payload) refl,
        drop-append_length payload rest (length payload) refl,
      )
      refl

read_frame-header :
    (op n : ℕ) (bs : Bytes)
    → op < 2 ^ 8
    → n < 2 ^ 32
    → read_frame (header op n ++ bs) ≡ read_payload op n bs
unfolding read_frame header put_uint32
read_frame-header op n bs ho hn = rw (be_value n hn, byte op ho) refl

-- A frame with a one-byte opcode and a payload of at most `MaxPayload` bytes is written whole, and
-- whatever follows it on the wire, `ReadFrame` gives the opcode and the payload back and leaves
-- what follows.
pub read_frame-write_frame :
    (op : ℕ) (payload w : Bytes)
    → op < 2 ^ 8
    → length payload ≤ max_payload
    → (bs : Bytes) × (write_frame append op (some payload) w ≡ (none, w ++ bs))
      × ((rest : Bytes) → read_frame (bs ++ rest) ≡ Read.frame op payload rest)
unfolding write_frame
read_frame-write_frame op payload w ho h = (
  header op (length payload) ++ payload,
  rw (fits payload h, append_assoc w (header op (length payload)) payload) refl,
  λ rest.
      ap read_frame (append_assoc (header op (length payload)) payload rest)
      ∙ read_frame-header op (length payload) (payload ++ rest) ho (omega (arith, h))
      ∙ read_payload-append op payload rest h,
)

abbrev pub IsBytes : Bytes → Type 0
IsBytes = All (λ b. b < 2 ^ 8)

taken :
    (n : ℕ) (bs payload : Bytes)
    → take n bs ≡ payload
    → ltb (length bs) n ≡ false
    → n ≡ length payload
taken n bs payload p f = let l = length-take n bs in let q = ap length p in ground arith

read_payload-inv :
    (op n : ℕ) (bs : Bytes) (o : ℕ) (payload rest : Bytes)
    → read_payload op n bs ≡ Read.frame o payload rest
    → (op ≡ o) × (n ≡ length payload) × (n ≤ max_payload) × (bs ≡ payload ++ rest)
unfolding read_payload
read_payload-inv op n bs o payload rest h = elim (Bool-cases (ltb max_payload n)) [
  | inl e ↦
      let bad : Read.read_err ReadError.oversized ≡ Read.frame o payload rest =
        sym (rw e refl) ∙ h in
      absurd cc
  | inr e ↦ elim (Bool-cases (ltb (length bs) n)) [
    | inl f ↦
        let bad : Read.read_err ReadError.no_payload ≡ Read.frame o payload rest =
          sym (rw (e, f) refl) ∙ h in
        absurd cc
    | inr f ↦
        let same : Read.frame op (take n bs) (drop n bs) ≡ Read.frame o payload rest =
          sym (rw (e, f) refl) ∙ h in
        let p : take n bs ≡ payload = cc in
        let r : drop n bs ≡ rest = cc in
        (
          cc,
          taken n bs payload p f,
          ground arith,
          sym (take-append-drop n bs) ∙ ap (λ x. x ++ drop n bs) p ∙ ap (λ x. payload ++ x) r,
        )
  ]
]

be_digits :
    (a b c d n : ℕ)
    → a < 2 ^ 8
    → b < 2 ^ 8
    → c < 2 ^ 8
    → d < 2 ^ 8
    → a * 2 ^ 24 + b * 2 ^ 16 + c * 2 ^ 8 + d ≡ n
    → (n / 2 ^ 24 % 2 ^ 8 ≡ a)
      × (n / 2 ^ 16 % 2 ^ 8 ≡ b)
      × (n / 2 ^ 8 % 2 ^ 8 ≡ c)
      × (n % 2 ^ 8 ≡ d)
be_digits a b c d n ha hb hc hd h = (omega arith, omega arith, omega arith, omega arith)

magic_of : (m0 m1 : ℕ) → (not (m0 == 80) || not (m1 == 68)) ≡ false → (m0 ≡ 80) × (m1 ≡ 68)
magic_of m0 m1 e = ground arith

rebuilt :
    (m0 m1 o a b c d : ℕ) (bs : Bytes) (op : ℕ) (payload rest : Bytes)
    → IsBytes (m0 ∷ m1 ∷ o ∷ a ∷ b ∷ c ∷ d ∷ bs)
    → (m0 ≡ 80) × (m1 ≡ 68)
    → o ≡ op
    → a * 2 ^ 24 + b * 2 ^ 16 + c * 2 ^ 8 + d ≡ length payload
    → bs ≡ payload ++ rest
    → m0 ∷ m1 ∷ o ∷ a ∷ b ∷ c ∷ d ∷ bs ≡ header op (length payload) ++ payload ++ rest
unfolding header put_uint32
rebuilt m0 m1 o a b c d bs op payload rest h m ho hn hb =
    let (b0, b1, b2, b3) =
      be_digits a b c d (length payload) h.1.1.1.0 h.1.1.1.1.0 h.1.1.1.1.1.0 h.1.1.1.1.1.1.0 hn in
    let low : o % 2 ^ 8 ≡ o = omega (arith, h.1.1.0) in
    rw (b0, b1, b2, b3, m.0, m.1, sym ho, low, hb) refl

-- Of a list of bytes that `ReadFrame` accepts, the bytes it consumes are the frame that
-- `WriteFrame` writes, with a payload of at most `MaxPayload` bytes, and the others are left.
pub read_frame-canonical :
    (bs : Bytes) (op : ℕ) (payload rest : Bytes)
    → IsBytes bs
    → read_frame bs ≡ Read.frame op payload rest
    → (length payload ≤ max_payload) × (bs ≡ header op (length payload) ++ payload ++ rest)
unfolding read_frame
read_frame-canonical [] op payload rest h r = absurd cc
read_frame-canonical (a ∷ []) op payload rest h r = absurd cc
read_frame-canonical (a ∷ b ∷ []) op payload rest h r = absurd cc
read_frame-canonical (a ∷ b ∷ c ∷ []) op payload rest h r = absurd cc
read_frame-canonical (a ∷ b ∷ c ∷ d ∷ []) op payload rest h r = absurd cc
read_frame-canonical (a ∷ b ∷ c ∷ d ∷ e ∷ []) op payload rest h r = absurd cc
read_frame-canonical (a ∷ b ∷ c ∷ d ∷ e ∷ f ∷ []) op payload rest h r = absurd cc
read_frame-canonical (m0 ∷ m1 ∷ o ∷ a ∷ b ∷ c ∷ d ∷ bs) op payload rest h r =
    elim (Bool-cases (not (m0 == 80) || not (m1 == 68))) [
      | inl e ↦
          let bad : Read.read_err ReadError.bad_magic ≡ Read.frame op payload rest =
            sym (rw e refl) ∙ r in
          absurd cc
      | inr e ↦
          let n = a * 2 ^ 24 + b * 2 ^ 16 + c * 2 ^ 8 + d in
          let body : read_payload o n bs ≡ Read.frame op payload rest = sym (rw e refl) ∙ r in
          let (ho, hn, small, hb) = read_payload-inv o n bs op payload rest body in
          (
            subst (λ k. k ≤ max_payload) hn small,
            rebuilt m0 m1 o a b c d bs op payload rest h (magic_of m0 m1 e) ho hn hb,
          )
    ]
