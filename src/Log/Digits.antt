-- ===== src/Log/Digits.antt =====
-- The numbers in the notice of lost log lines.
use ahura_kernel.Prelude.{
  ℕ, zero, suc, ◌+◌, ◌-◌, ◌*◌, ◌/◌, ◌%◌, ◌^◌, ◌<◌, ◌≡◌, refl, ap, subst, ◌∙◌, ◌==◌, if◌then◌else◌,
  Bool-cases, inl, inr, List, [], ◌∷◌, ◌++◌, length, length-append, update, arith,
}
use mathlib.Core.Path.{ap₂}
use native.Mathlib.Nat.{pow-suc}
use ahura_kernel.Log.{digits, pad, append_digits, append_number, append_u32}
use ahura_kernel.Queue.Bytes.{Memory, copy_in, copy_out, copy_out-copy_in}

-- The digits in the order in which they are written, and the spaces before them.
abbrev pub written : List ℕ → List ℕ
written [] = []
written (d ∷ ds) = written ds ++ d ∷ []

abbrev pub spaces : ℕ → List ℕ
spaces zero = []
spaces (suc n) = 32 ∷ spaces n

copy_in-append :
    (offset : ℕ) (xs ys : List ℕ) (m : Memory)
    → copy_in (offset + length xs) ys (copy_in offset xs m) ≡ copy_in offset (xs ++ ys) m
unfolding copy_in
copy_in-append offset [] ys m = ap (λ (p : ℕ). copy_in p ys m) (omega arith)
copy_in-append offset (x ∷ xs) ys m =
    let at : offset + suc (length xs) ≡ offset + 1 + length xs = omega arith in
    rw at (copy_in-append (offset + 1) xs ys (update m offset x))

pub length-written : (ds : List ℕ) → length (written ds) ≡ length ds
length-written [] = refl
length-written (d ∷ ds) = omega (arith, length-append {0} (written ds) (d ∷ []), length-written ds)

append_digits-copy_in :
    (ds : List ℕ) (dst : Memory) (offset : ℕ)
    → append_digits ds (dst, offset) ≡ (copy_in offset (written ds) dst, offset + length ds)
unfolding append_digits copy_in
append_digits-copy_in [] dst offset = ap (λ (p : ℕ). (dst, p)) (omega arith)
append_digits-copy_in (d ∷ ds) dst offset =
    let rest = append_digits-copy_in ds dst offset in
    let at : offset + length (written ds) ≡ offset + length ds = omega (arith, length-written ds) in
    let last : update (copy_in offset (written ds) dst) (offset + length ds) d
        ≡ copy_in offset (written ds ++ d ∷ []) dst =
      subst
        (λ (p : ℕ).
          copy_in p (d ∷ []) (copy_in offset (written ds) dst)
          ≡ copy_in offset (written ds ++ d ∷ []) dst)
        at (copy_in-append offset (written ds) (d ∷ []) dst) in
    rw rest (ap₂ (λ (m : Memory) (p : ℕ). (m, p)) last (omega arith))

pad-copy_in :
    (n : ℕ) (dst : Memory) (offset : ℕ)
    → pad n (dst, offset) ≡ (copy_in offset (spaces n) dst, offset + n)
unfolding pad copy_in
pad-copy_in zero dst offset = ap (λ (p : ℕ). (dst, p)) (omega arith)
pad-copy_in (suc n) dst offset =
    pad-copy_in n (update dst offset 32) (offset + 1)
    ∙ ap (λ (p : ℕ). (copy_in (offset + 1) (spaces n) (update dst offset 32), p)) (omega arith)

pub length-spaces : (n : ℕ) → length (spaces n) ≡ n
length-spaces zero = refl
length-spaces (suc n) = omega (arith, length-spaces n)

-- What os_log_append_u32 writes.
abbrev pub printed : List ℕ → ℕ → List ℕ
printed ds width = spaces (width - length ds) ++ written ds

pub append_number-copy_in :
    (ds : List ℕ) (width : ℕ) (dst : Memory) (offset : ℕ)
    → append_number ds width (dst, offset)
      ≡ (copy_in offset (printed ds width) dst, offset + length (printed ds width))
unfolding append_number
append_number-copy_in ds width dst offset =
    let n = width - length ds in
    let size : length (printed ds width) ≡ n + length ds =
      length-append (spaces n) (written ds)
      ∙ ap₂ (λ (a : ℕ) (b : ℕ). a + b) (length-spaces n) (length-written ds) in
    let joined : copy_in (offset + n) (written ds) (copy_in offset (spaces n) dst)
        ≡ copy_in offset (printed ds width) dst =
      subst
        (λ (k : ℕ).
          copy_in (offset + k) (written ds) (copy_in offset (spaces n) dst)
          ≡ copy_in offset (printed ds width) dst)
        (length-spaces n) (copy_in-append offset (spaces n) (written ds) dst) in
    ap (append_digits ds) (pad-copy_in n dst offset)
    ∙ append_digits-copy_in ds (copy_in offset (spaces n) dst) (offset + n)
    ∙ ap₂ (λ (m : Memory) (p : ℕ). (m, p)) joined (omega (arith, size))

-- A number as it is read: from the left, spaces before it skipped.
unfoldable pub parse : ℕ → List ℕ → ℕ
parse acc [] = acc
parse acc (c ∷ cs) = parse (if c == 32 then acc else acc * 10 + (c - 48)) cs

parse-spaces : (n : ℕ) (cs : List ℕ) → parse 0 (spaces n ++ cs) ≡ parse 0 cs
unfolding parse
parse-spaces zero cs = refl
parse-spaces (suc n) cs = parse-spaces n cs

parse-append :
    (xs : List ℕ) (acc : ℕ) (ys : List ℕ) → parse acc (xs ++ ys) ≡ parse (parse acc xs) ys
unfolding parse
parse-append [] acc ys = refl
parse-append (x ∷ xs) acc ys = parse-append xs (if x == 32 then acc else acc * 10 + (x - 48)) ys

parse-digits : (n value : ℕ) → value < 10 ^ suc n → parse 0 (written (digits (suc n) value)) ≡ value
unfolding digits parse
parse-digits zero value small = let one : value / 10 ≡ 0 = omega arith in rw one (ground arith)
parse-digits (suc n) value small = elim (Bool-cases (value / 10 == 0)) [
  | inl one ↦ rw one (ground (arith, one))
  | inr more ↦ rw more (
      parse-append (written (digits (suc n) (value / 10))) 0 ((48 + value % 10) ∷ [])
      ∙ rw (parse-digits n (value / 10) (omega (arith, pow-suc 10 (suc n)))) (ground arith))
]

number-parse :
    (ds : List ℕ) (width : ℕ) (dst : Memory) (offset : ℕ)
    → parse 0 (
        copy_out offset
          ((append_number ds width (dst, offset)).1 - offset)
          (append_number ds width (dst, offset)).0)
      ≡ parse 0 (written ds)
number-parse ds width dst offset =
    let size : offset + length (printed ds width) - offset ≡ length (printed ds width) =
      omega arith in
    rw (append_number-copy_in ds width dst offset, size)
      (ap (parse 0) (copy_out-copy_in offset (printed ds width) dst)
        ∙ parse-spaces (width - length ds) (written ds))

-- os_log_append_u32 writes a 32-bit number so that it reads as the number again: the bytes from the
-- position given to the one that it returns are its text.
pub append_u32-parse :
    (value width : ℕ) (dst : Memory) (offset : ℕ)
    → value < 2 ^ 32
    → parse 0 (
        copy_out offset
          ((append_u32 value width (dst, offset)).1 - offset)
          (append_u32 value width (dst, offset)).0)
      ≡ value
unfolding append_u32
append_u32-parse value width dst offset word =
    number-parse (digits 10 value) width dst offset ∙ parse-digits 9 value (omega arith)
