-- ===== src/Examples/Codec.antt =====
-- A codec of texts for the examples: the list of the code points, which is read back.
use Prim.Native.Char.{Char, char, code, nul, IsScalar}
use text.Mathlib.TextEquality.{Char-path}
use geofastmap_api.Prelude.{
  ℕ, String, ◌≡◌, refl, true, false, ◌&&◌, ◌⊎◌, inl, inr, List, [], ◌∷◌, ltb, arith, Bool-cases,
}

IsScalar-low : (n : ℕ) → ltb n 55296 ≡ true → IsScalar n
IsScalar-low n e = ground arith

IsScalar-high : (n : ℕ) → ltb n 55296 ≡ false → ltb 57343 n && ltb n 1114112 ≡ true → IsScalar n
IsScalar-high n l e = ground arith

abbrev high_char :
    (n : ℕ)
    → ltb n 55296 ≡ false
    → (ltb 57343 n && ltb n 1114112 ≡ true) ⊎ (ltb 57343 n && ltb n 1114112 ≡ false)
    → Char
high_char n l (inl e) = char n (IsScalar-high n l e)
high_char n l (inr e) = nul

abbrev char_by : (n : ℕ) → (ltb n 55296 ≡ true) ⊎ (ltb n 55296 ≡ false) → Char
char_by n (inl e) = char n (IsScalar-low n e)
char_by n (inr l) = high_char n l (Bool-cases (ltb 57343 n && ltb n 1114112))

no_gap : (n : ℕ) → IsScalar n → ltb n 55296 ≡ false → ltb 57343 n && ltb n 1114112 ≡ false → ⊥
no_gap n p l e = ground arith

code-high_char :
    (n : ℕ) (l : ltb n 55296 ≡ false)
    (d : (ltb 57343 n && ltb n 1114112 ≡ true) ⊎ (ltb 57343 n && ltb n 1114112 ≡ false))
    → IsScalar n
    → code (high_char n l d) ≡ n
code-high_char n l (inl e) p = refl
code-high_char n l (inr e) p = absurd (no_gap n p l e)

code-char_by :
    (n : ℕ) (d : (ltb n 55296 ≡ true) ⊎ (ltb n 55296 ≡ false)) → IsScalar n → code (char_by n d) ≡ n
code-char_by n (inl e) p = refl
code-char_by n (inr l) p = code-high_char n l (Bool-cases (ltb 57343 n && ltb n 1114112)) p

char_back : (c : Char) → char_by (code c) (Bool-cases (ltb (code c) 55296)) ≡ c
char_back (char n p) = Char-path _ _ (code-char_by n (Bool-cases (ltb n 55296)) p)

abbrev pub codes : String → List ℕ
codes String.[] = []
codes (String.◌∷◌ c s) = code c ∷ codes s

pub text_of : List ℕ → String
text_of [] = String.[]
text_of (n ∷ ns) = String.◌∷◌ (char_by n (Bool-cases (ltb n 55296))) (text_of ns)

pub text_of-codes : (s : String) → text_of (codes s) ≡ s
unfolding text_of
text_of-codes String.[] = refl
text_of-codes (String.◌∷◌ c s) = λ i. String.◌∷◌ (char_back c i) (text_of-codes s i)
