-- ===== src/Decoders/Utils/Names.antt =====
-- The names that decoders/utils.ts gives to chain ids.
use via_solana_gateway_v.Prelude.{
  ℕ, ◌≡◌, refl, sym, ap, ◌∙◌, ◌++◌, if◌then◌else◌, arith, Text, codes, text_eq, text_eq_iff,
  eq_of_text_eq, ◌==◌, ==_iff, Bool_ext,
}
use via_solana_gateway_v.Prelude.Digits.{to_string, to_string_injective}
use via_solana_gateway_v.Decoders.Utils.{get_chain_name}

-- A printed number is the numeral of `k` exactly when it is `k`.
text_eq-to_string : (n k : ℕ) → text_eq (to_string n) (to_string k) ≡ (n == k)
text_eq-to_string n k =
    Bool_ext _ _ (λ h. (==_iff n k).1 (to_string_injective n k (eq_of_text_eq _ _ h)))
      (λ h. (text_eq_iff _ _).1 (ap to_string ((==_iff n k).0 h)))

numeral_test :
    (n k : ℕ) (numeral : Text) → to_string k ≡ numeral → text_eq (to_string n) numeral ≡ (n == k)
numeral_test n k numeral e = ap (text_eq (to_string n)) (sym e) ∙ text_eq-to_string n k

-- The names, by number.
named : ℕ → Text
named n =
    if n == 1
    then codes "Solana Testnet"
    else if n == 2
    then codes "Ethereum"
    else if n == 3
    then codes "Polygon"
    else codes "Chain " ++ to_string n

-- The switch on the printed id is a switch on the id.
get_chain_name-eq : (n : ℕ) → get_chain_name n ≡ named n
unfolding named get_chain_name
get_chain_name-eq n = rw (numeral_test n 1 (codes "1") (unfold to_string in refl)) (
    rw (numeral_test n 2 (codes "2") (unfold to_string in refl))
      (rw (numeral_test n 3 (codes "3") (unfold to_string in refl))))

named_injective : (a b : ℕ) → named a ≡ named b → a ≡ b
unfolding named
named_injective a b e = ground (arith, to_string_injective a b)

-- The name that is shown for a chain id determines the id.
pub get_chain_name_injective : (a b : ℕ) → get_chain_name a ≡ get_chain_name b → a ≡ b
get_chain_name_injective a b e =
    named_injective a b (sym (get_chain_name-eq a) ∙ e ∙ get_chain_name-eq b)
