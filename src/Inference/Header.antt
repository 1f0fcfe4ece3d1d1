-- ===== src/Inference/Header.antt =====
-- src/inference/safetensors.cc: the size and the text of the header of a file in the format of
-- safetensors, for headers of less than 2^31 bytes.
use Prim.Native.Nat.{bit_or}
use gabby.Base.{
  ℕ, suc, ◌+◌, ◌-◌, ◌*◌, ◌/◌, ◌%◌, ◌^◌, ◌<◌, ◌≤◌, Option, [], ◌∷◌, ◌++◌, Bytes, length,
  length-append, ltb, ◌≡◌, refl, sym, ap, ◌∙◌, arith, shift_left, bit_or-shift_left, bit_or-zero,
  if◌then◌else◌, append_assoc,
}
use gabby.Outcome.{ok, bind, step}
use gabby.Inference.Files.{Mapping}
use gabby.Inference.Tensors.{read_byte, shifted, size_loop, copy}

-- a number of 64 bits in eight bytes, the lowest first
abbrev pub le64 : ℕ → Bytes
le64 n =
    n % 256
    ∷ n / 256 % 256
    ∷ n / 65536 % 256
    ∷ n / 16777216 % 256
    ∷ n / 4294967296 % 256
    ∷ n / 1099511627776 % 256
    ∷ n / 281474976710656 % 256
    ∷ n / 72057594037927936 % 256
    ∷ []

narrow :
    (v : ℕ)
    → v < 2 ^ 31
    → (if ltb (v % 2 ^ 32) (2 ^ 31) then v % 2 ^ 32 else v % 2 ^ 32 + (2 ^ 64 - 2 ^ 32)) ≡ v
narrow v h = ground arith

four :
    (a b c d : ℕ)
    → a < 256
    → b < 256
    → c < 256
    → bit_or (bit_or (bit_or (bit_or 0 a) (shift_left b 8)) (shift_left c 16)) (shift_left d 24)
      ≡ a + 256 * b + 65536 * c + 16777216 * d
four a b c d ha hb hc =
    rw
      (
        first,
        bit_or-shift_left 8 a b (omega arith),
        bit_or-shift_left 16 (a + shift_left b 8) c (omega arith),
        bit_or-shift_left 24 (a + shift_left b 8 + shift_left c 16) d (omega arith),
      )
      (omega arith)
  where
    first : bit_or 0 a ≡ a
    first = omega (arith, bit_or-shift_left 0 0 a (omega arith))

module _ (wide_shift : ℕ → ℕ → ℕ) (zero_shift : (i : ℕ) → wide_shift 0 i ≡ 0) where
  abbrev sh : ℕ → ℕ → ℕ
  sh b i = shifted wide_shift b i

  -- the four bytes below
  low :
      (n : ℕ)
      → n < 2 ^ 31
      → bit_or
          (bit_or
            (bit_or (bit_or 0 (sh (n % 256) 0)) (sh (n / 256 % 256) 1))
            (sh (n / 65536 % 256) 2))
          (sh (n / 16777216 % 256) 3)
        ≡ n
  unfolding shifted
  low n h =
      rw
        (
          narrow (n % 256) (omega arith),
          narrow (shift_left (n / 256 % 256) 8) (omega arith),
          narrow (shift_left (n / 65536 % 256) 16) (omega arith),
          narrow (shift_left (n / 16777216 % 256) 24) (omega arith),
        )
        (omega (
          arith,
          four (n % 256) (n / 256 % 256) (n / 65536 % 256) (n / 16777216 % 256) (omega arith)
              (omega arith) (omega arith),
        ))

  -- the four bytes above, which are 0
  zero_above : (i : ℕ) → 4 ≤ i → sh 0 i ≡ 0
  unfolding shifted
  zero_above i h = ground (arith, zero_shift i)

  high : (x z i : ℕ) → z ≡ 0 → 4 ≤ i → bit_or x (sh z i) ≡ x
  high x z i e h = rw (e, zero_above i h) (bit_or-zero x x (omega arith))

  size_loop-read :
      (m : Mapping) (n i acc : ℕ) {b r : ℕ}
      → read_byte m i ≡ ok b
      → size_loop wide_shift m n (suc i) (bit_or acc (sh b i)) ≡ ok r
      → size_loop wide_shift m (suc n) i acc ≡ ok r
  unfolding size_loop
  size_loop-read m n i acc e h =
      step (λ b. size_loop wide_shift m n (suc i) (bit_or acc (sh b i))) e h

  -- The loop reads the number in the first eight bytes.
  pub size_loop-le64 :
      (m : Mapping) (n : ℕ) (rest : Bytes)
      → m.bytes ≡ le64 n ++ rest
      → n < 2 ^ 31
      → size_loop wide_shift m 8 0 0 ≡ ok n
  unfolding size_loop read_byte
  size_loop-le64 m n rest e h = size_loop-read m 7 0 _ (byte 0) (
      size_loop-read m 6 1 _ (byte 1) (
        size_loop-read m 5 2 _ (byte 2) (
          size_loop-read m 4 3 _ (byte 3) (
            size_loop-read m 3 4 _ (byte 4) (
              size_loop-read m 2 5 _ (byte 5) (
                size_loop-read m 1 6 _ (byte 6) (
                  size_loop-read m 0 7 _ (byte 7) (
                    ap ok (
                      high _ _ 7 (omega arith) (omega arith)
                      ∙ high _ _ 6 (omega arith) (omega arith)
                      ∙ high _ _ 5 (omega arith) (omega arith)
                      ∙ high _ _ 4 (omega arith) (omega arith)
                      ∙ low n h)))))))))
    where
      byte :
          (i : ℕ)
          → read_byte m i ≡ read_byte (record { bytes = le64 n ++ rest; behind = m.behind }) i
      byte i = ap (λ l. read_byte (record { bytes = l; behind = m.behind }) i) e

read_byte-middle :
    (before rest : Bytes) (c : ℕ) (behind : ℕ → Option ℕ)
    → read_byte (record { bytes = before ++ c ∷ rest; behind = behind }) (length before) ≡ ok c
unfolding read_byte
read_byte-middle [] rest c behind = refl
read_byte-middle (b ∷ before) rest c behind = read_byte-middle before rest c behind

-- The copy of a part in the middle.
pub copy-middle :
    (m : Mapping) (i : ℕ) (before text rest : Bytes)
    → m.bytes ≡ before ++ (text ++ rest)
    → i ≡ length before
    → copy m i (length text) ≡ ok text
unfolding copy
copy-middle m i before [] rest e h = refl
copy-middle m i before (c ∷ text) rest e h =
    step (λ b. bind (copy m (suc i) (length text)) λ bs. ok (b ∷ bs)) first
      (step (λ bs. ok (c ∷ bs))
        (copy-middle m (suc i) (before ++ c ∷ []) text rest
          (e ∙ sym (append_assoc before (c ∷ []) (text ++ rest)))
          (omega (arith, length-append before (c ∷ []))))
        refl)
  where
    first : read_byte m i ≡ ok c
    first = rw h (
        ap (λ l. read_byte (record { bytes = l; behind = m.behind }) (length before)) e
        ∙ read_byte-middle before (text ++ rest) c m.behind)
