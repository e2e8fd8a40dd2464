-- ===== src/SyntaxTree/Names.antt =====
-- `generate_name`: the names of the first 99 columns fit the array, and no later one does.
use npsql.Base.{
  ℕ, zero, suc, ◌+◌, ◌/◌, ◌%◌, ◌≤◌, ◌<◌, ◌≡◌, ◌∙◌, refl, ap, true, false, none, some, [], ◌∷◌,
  length, ltb, dec_lt, arith,
}
use npsql.Sql.{Str}
use npsql.SyntaxTree.{Heap, strdup, digits, column_name, generate_name}

digits-last : (f n : ℕ) (rest : Str) → n < 10 → digits (suc f) n rest ≡ (48 + n % 10) ∷ rest
unfolding digits
digits-last f n rest small = ground arith

digits-more :
    (f n : ℕ) (rest : Str)
    → 10 ≤ n
    → digits (suc f) n rest ≡ digits f (n / 10) ((48 + n % 10) ∷ rest)
unfolding digits
digits-more f n rest large = ground arith

length-digits : (f n : ℕ) (rest : Str) → length rest ≤ length (digits f n rest)
unfolding digits
length-digits zero n rest = omega arith
length-digits (suc f) n rest = ground (arith, length-digits f (n / 10) ((48 + n % 10) ∷ rest))

length-one : (n : ℕ) → n < 10 → length (digits 10 n []) ≡ 1
length-one n small = ap length (digits-last 9 n [] small)

length-two : (n : ℕ) → 10 ≤ n → n < 100 → length (digits 10 n []) ≡ 2
length-two n large small =
    ap length (digits-more 9 n [] large ∙ digits-last 8 (n / 10) _ (omega arith))

length-step : (f n : ℕ) (rest : Str) → length rest + 1 ≤ length (digits (suc f) n rest)
unfolding digits
length-step f n rest = ground (arith, length-digits f (n / 10) ((48 + n % 10) ∷ rest))

length-three : (n : ℕ) → 100 ≤ n → 3 ≤ length (digits 10 n [])
length-three n large =
    let e = digits-more 9 n [] (omega arith) ∙ digits-more 8 (n / 10) _ (omega arith) in
    let more = length-step 7 (n / 10 / 10) ((48 + n / 10 % 10) ∷ (48 + n % 10) ∷ []) in
    omega (arith, ap length e)

column_name-short : (n : ℕ) → n < 100 → ltb (length (column_name n)) 7 ≡ true
column_name-short n small = elim (dec_lt n 10) [
  | yes h ↦ ground (arith, length-one n h)
  | no h ↦ ground (arith, length-two n (omega arith) small)
]

-- The name of the column with index `i` fits the seven bytes of the array, terminator included, and is
-- given in a block of its own, exactly where `i` is less than 99; for every later column the code
-- writes past the array.
pub generate_name-fits :
    (h : Heap) (i : ℕ)
    → (i < 99 → generate_name h i ≡ some (strdup h (column_name (i + 1))))
      × (99 ≤ i → generate_name h i ≡ none)
unfolding generate_name
generate_name-fits h i = (
  λ small. rw (column_name-short (i + 1) (omega arith)) refl,
  λ large. rw (column_name-long (i + 1) (omega arith)) refl,
)
  where
    column_name-long : (n : ℕ) → 100 ≤ n → ltb (length (column_name n)) 7 ≡ false
    column_name-long n large = ground (arith, length-three n large)
