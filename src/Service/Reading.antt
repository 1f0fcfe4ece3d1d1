-- ===== src/Service/Reading.antt =====
-- src/service.cc, `ReadAll`.
use gabby.Base.{
  ℕ, zero, suc, ◌<◌, [], ◌∷◌, ◌++◌, Bytes, length, take, drop, take-drop, append-nil, append_assoc,
  is_empty, ◌≡◌, sym, ap, ◌∙◌, arith, if◌then◌else◌,
}
use gabby.Outcome.{Outcome, ok, out_of_fuel}
use gabby.Json.Source.{File}

-- The loop: `fread` gives up to 1024 bytes, and 0 at the end of the file as at an error, so the test
-- `n < 0` behind the loop never holds.
unfoldable pub read_chunks : ℕ → Bytes → Bytes → Outcome Bytes
read_chunks zero text bytes = out_of_fuel
read_chunks (suc f) text bytes =
    let rest = read_chunks f (text ++ take 1024 bytes) (drop 1024 bytes) in
    if is_empty (take 1024 bytes) then ok text else rest

-- `ReadAll`; each turn but the last takes a byte.
unfoldable pub read_all : File → Outcome Bytes
unfolding read_chunks
read_all file = read_chunks (suc (length file.bytes)) [] file.bytes

length-drop : (n : ℕ) (b : ℕ) (bs : Bytes) → length (drop (suc n) (b ∷ bs)) < suc (length bs)
length-drop zero b bs = omega arith
length-drop (suc n) b [] = omega arith
length-drop (suc n) b (c ∷ bs) = omega (arith, length-drop n c bs)

read_chunks-all :
    (f : ℕ) (text bytes : Bytes) → length bytes < f → read_chunks f text bytes ≡ ok (text ++ bytes)
unfolding read_chunks
read_chunks-all zero text bytes h = absurd (omega arith)
read_chunks-all (suc f) text [] h = ap ok (sym (append-nil text))
read_chunks-all (suc f) text (b ∷ bytes) h =
    read_chunks-all f (text ++ take 1024 (b ∷ bytes)) (drop 1024 (b ∷ bytes))
      (omega (arith, length-drop 1023 b bytes))
    ∙ ap ok (
        append_assoc text (take 1024 (b ∷ bytes)) (drop 1024 (b ∷ bytes))
        ∙ ap (λ l. text ++ l) (take-drop 1024 (b ∷ bytes)))

-- `ReadAll` ends on every stream, with all the bytes that can be read, and so it does where the stream
-- timed out or failed: the error is not reported.
pub read_all-bytes : (file : File) → read_all file ≡ ok file.bytes
unfolding read_all
read_all-bytes file = read_chunks-all (suc (length file.bytes)) [] file.bytes (omega arith)
