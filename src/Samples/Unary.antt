-- ===== src/Samples/Unary.antt =====
-- Lists of numbers as texts, each number in unary: what stands for base64.
use Prim.Native.Char.{char, code}
use merkle_proof_service.Prelude.{
  ℕ, zero, suc, ◌+◌, String, ◌≡◌, refl, ap, ◌∙◌, List, [], ◌∷◌, arith, ◌==◌, if◌then◌else◌,
}

abbrev unary : ℕ → String → String
unary zero s = String.◌∷◌ (char 98 tt) s
unary (suc n) s = String.◌∷◌ (char 97 tt) (unary n s)

abbrev pub unary_text : List ℕ → String
unary_text [] = ""
unary_text (n ∷ ns) = unary n (unary_text ns)

abbrev read_unary : String → ℕ → List ℕ
read_unary String.[] k = []
read_unary (String.◌∷◌ c s) k =
    let longer = read_unary s (suc k) in
    let next = read_unary s 0 in if code c == 97 then longer else k ∷ next

abbrev pub unary_numbers : String → List ℕ
unary_numbers s = read_unary s 0

read_unary-unary : (n k : ℕ) (s : String) → read_unary (unary n s) k ≡ (k + n) ∷ read_unary s 0
read_unary-unary zero k s = ap (λ m. m ∷ read_unary s 0) (let e : k ≡ k + 0 = omega arith in e)
read_unary-unary (suc n) k s =
    read_unary-unary n (suc k) s
    ∙ ap (λ m. m ∷ read_unary s 0) (let e : suc k + n ≡ k + suc n = omega arith in e)

pub unary_numbers-unary_text : (ns : List ℕ) → unary_numbers (unary_text ns) ≡ ns
unary_numbers-unary_text [] = refl
unary_numbers-unary_text (n ∷ ns) =
    read_unary-unary n 0 (unary_text ns)
    ∙ ap (λ m. m ∷ unary_numbers (unary_text ns)) (let e : 0 + n ≡ n = omega arith in e)
    ∙ ap (◌∷◌ n) (unary_numbers-unary_text ns)
