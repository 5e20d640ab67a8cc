-- ===== src/Prelude/Words.antt =====
-- JavaScript's operations on strings: `trim`, `startsWith`, `endsWith`, `split` and `join`.
use Prim.Native.Nat.{ℕ}
use mathlib.Core.Path.{◌≡◌, refl, sym, ap, ◌∙◌}
use mathlib.Core.Bool.{not, Bool, true, false, ◌&&◌, ◌||◌}
use mathlib.Core.List.{List, [], ◌∷◌, ◌++◌}
use native.Mathlib.Omega.{arith}
use mathlib.Core.Logic.{◌≢◌, inl, inr}
use via_solana_gateway_v.Prelude.Tests.{Bool-cases, ==_iff, leb, ◌==◌, if◌then◌else◌}
use via_solana_gateway_v.Prelude.Lists.{All}
use via_solana_gateway_v.Prelude.Texts.{Text, text_eq}

-- White space and line ends, as `trim` takes them off.
unfoldable pub is_space : ℕ → Bool
is_space c =
    (leb 9 c && leb c 13)
    || c == 32
    || c == 160
    || c == 5760
    || (leb 8192 c && leb c 8202)
    || c == 8232
    || c == 8233
    || c == 8239
    || c == 8287
    || c == 12288
    || c == 65279

unfoldable pub trim_start : Text → Text
trim_start [] = []
trim_start (c ∷ s) = if is_space c then trim_start s else c ∷ s

abbrev is_empty : Text → Bool
is_empty [] = true
is_empty (c ∷ s) = false

abbrev keep_before : ℕ → Text → Text
keep_before c s = if is_empty s && is_space c then [] else c ∷ s

unfoldable pub trim_end : Text → Text
trim_end [] = []
trim_end (c ∷ s) = keep_before c (trim_end s)

-- `text.trim()`
unfoldable pub trim : Text → Text
trim s = trim_end (trim_start s)

-- `args.includes(word)`
unfoldable pub includes : Text → List Text → Bool
includes word [] = false
includes word (a ∷ args) = text_eq a word || includes word args

-- `text.startsWith(prefix)`
unfoldable pub starts_with : Text → Text → Bool
starts_with [] text = true
starts_with (c ∷ prefix) [] = false
starts_with (c ∷ prefix) (d ∷ text) = c == d && starts_with prefix text

-- `text.endsWith(c)` for a single character.
unfoldable pub ends_with : ℕ → Text → Bool
ends_with c [] = false
ends_with c (d ∷ []) = c == d
ends_with c (d ∷ e ∷ text) = ends_with c (e ∷ text)

abbrev onto_first : ℕ → List Text → List Text
onto_first c [] = (c ∷ []) ∷ []
onto_first c (p ∷ parts) = (c ∷ p) ∷ parts

-- `text.split(separator)` for a single character.
unfoldable pub split : ℕ → Text → List Text
split sep [] = [] ∷ []
split sep (c ∷ s) = let rest = split sep s in if c == sep then [] ∷ rest else onto_first c rest

-- `parts.join(separator)` for a single character.
unfoldable pub join : ℕ → List Text → Text
join sep [] = []
join sep (p ∷ []) = p
join sep (p ∷ q ∷ parts) = p ++ (sep ∷ join sep (q ∷ parts))

pub starts_with-append : (prefix rest : Text) → starts_with prefix (prefix ++ rest) ≡ true
unfolding starts_with
starts_with-append [] rest = refl
starts_with-append (c ∷ prefix) rest = ground (arith, starts_with-append prefix rest)

pub ends_with-append : (c : ℕ) (s : Text) → ends_with c (s ++ c ∷ []) ≡ true
unfolding ends_with
ends_with-append c [] = ground arith
ends_with-append c (d ∷ []) = ground arith
ends_with-append c (d ∷ e ∷ s) = ends_with-append c (e ∷ s)

trim_end-append : (s : Text) (d : ℕ) → is_space d ≡ false → trim_end (s ++ d ∷ []) ≡ s ++ d ∷ []
unfolding trim_end
trim_end-append [] d h = ground (arith, h)
trim_end-append (c ∷ []) d h = ground (arith, h)
trim_end-append (c ∷ e ∷ s) d h = ground (arith, trim_end-append (e ∷ s) d h)

-- Text between two characters that are no white space is left as it is.
pub trim_between :
    (c d : ℕ) (s : Text)
    → is_space c ≡ false
    → is_space d ≡ false
    → trim (c ∷ (s ++ d ∷ [])) ≡ c ∷ (s ++ d ∷ [])
unfolding trim trim_start
trim_between c d s hc hd = rw hc (trim_end-append (c ∷ s) d hd)

-- A text without the separator.
abbrev pub Lacks : ℕ → Text → Type 0
Lacks sep = All (λ c. (c == sep) ≡ false)

onto_first-Lacks :
    (sep c : ℕ) (parts : List Text)
    → (c == sep) ≡ false
    → All (Lacks sep) parts
    → All (Lacks sep) (onto_first c parts)
onto_first-Lacks sep c [] hc h = ((hc, tt), tt)
onto_first-Lacks sep c (p ∷ parts) hc (h, hs) = ((hc, h), hs)

-- No part of a split holds the separator.
pub split-Lacks : (sep : ℕ) (s : Text) → All (Lacks sep) (split sep s)
unfolding split
split-Lacks sep [] = (tt, tt)
split-Lacks sep (c ∷ s) = elim (Bool-cases (c == sep)) [
  | inl e ↦ rw e (tt, split-Lacks sep s)
  | inr e ↦ rw e (onto_first-Lacks sep c (split sep s) e (split-Lacks sep s))
]

onto_first_ne_nil : (c : ℕ) (parts : List Text) → onto_first c parts ≢ []
onto_first_ne_nil c [] e = cc
onto_first_ne_nil c (p ∷ parts) e = cc

pub split_ne_nil : (sep : ℕ) (s : Text) → split sep s ≢ []
unfolding split
split_ne_nil sep [] e = cc
split_ne_nil sep (c ∷ s) e = elim (Bool-cases (c == sep)) [
  | inl h ↦ ground (arith, h, e)
  | inr h ↦ onto_first_ne_nil c (split sep s) (sym (rw h refl) ∙ e)
]

split_last : (sep : ℕ) (p : Text) → Lacks sep p → split sep p ≡ p ∷ []
unfolding split
split_last sep [] h = refl
split_last sep (c ∷ p) (hc, h) = rw hc (rw (split_last sep p h))

pub split-append :
    (sep : ℕ) (p rest : Text) → Lacks sep p → split sep (p ++ (sep ∷ rest)) ≡ p ∷ split sep rest
unfolding split
split-append sep [] rest h = ground arith
split-append sep (c ∷ p) rest (hc, h) = rw hc (rw (split-append sep p rest h))

-- Splitting a join gives the parts back, if there is a part and none holds the separator.
pub split-join :
    (sep : ℕ) (p : Text) (parts : List Text)
    → All (Lacks sep) (p ∷ parts)
    → split sep (join sep (p ∷ parts)) ≡ p ∷ parts
unfolding join
split-join sep p [] (h, hs) = split_last sep p h
split-join sep p (q ∷ parts) (h, hs) =
    split-append sep p (join sep (q ∷ parts)) h ∙ ap (λ ps. p ∷ ps) (split-join sep q parts hs)

pub append-Lacks : (sep : ℕ) (s t : Text) → Lacks sep s → Lacks sep t → Lacks sep (s ++ t)
append-Lacks sep [] t h k = k
append-Lacks sep (c ∷ s) t (h, hs) k = (h, append-Lacks sep s t hs k)

abbrev pub lacks : ℕ → Text → Bool
lacks sep [] = true
lacks sep (c ∷ s) = not (c == sep) && lacks sep s

-- For a literal, the test evaluates.
pub Lacks-lacks : (sep : ℕ) (s : Text) → lacks sep s ≡ true → Lacks sep s
Lacks-lacks sep [] h = tt
Lacks-lacks sep (c ∷ s) h = (ground (arith, h), Lacks-lacks sep s (ground (arith, h)))

-- A text without white space.
abbrev pub IsWord : Text → Type 0
IsWord = All (λ c. is_space c ≡ false)

trim_end-IsWord : (s : Text) → IsWord s → trim_end s ≡ s
unfolding trim_end
trim_end-IsWord [] h = refl
trim_end-IsWord (c ∷ s) (h, hs) = rw (trim_end-IsWord s hs) (rw h (go (is_empty s)))
  where
    go : (b : Bool) → (if b && false then [] else c ∷ s) ≡ c ∷ s
    go true = refl
    go false = refl

pub trim-IsWord : (s : Text) → IsWord s → trim s ≡ s
unfolding trim trim_start trim_end
trim-IsWord [] h = refl
trim-IsWord (c ∷ s) (h, hs) = rw h (trim_end-IsWord (c ∷ s) (h, hs))

pub append-IsWord : (s t : Text) → IsWord s → IsWord t → IsWord (s ++ t)
append-IsWord [] t h k = k
append-IsWord (c ∷ s) t (h, hs) k = (h, append-IsWord s t hs k)

join-onto_first :
    (sep c : ℕ) (parts : List Text)
    → parts ≢ []
    → join sep (onto_first c parts) ≡ c ∷ join sep parts
unfolding join
join-onto_first sep c [] n = absurd (n refl)
join-onto_first sep c (p ∷ []) n = refl
join-onto_first sep c (p ∷ q ∷ parts) n = refl

join-nil_cons :
    (sep : ℕ) (parts : List Text) → parts ≢ [] → join sep ([] ∷ parts) ≡ sep ∷ join sep parts
unfolding join
join-nil_cons sep [] n = absurd (n refl)
join-nil_cons sep (p ∷ parts) n = refl

-- Joining a split gives the text back.
pub join-split : (sep : ℕ) (s : Text) → join sep (split sep s) ≡ s
unfolding split join
join-split sep [] = refl
join-split sep (c ∷ s) = elim (Bool-cases (c == sep)) [
  | inl e ↦ rw e (
      join-nil_cons sep (split sep s) (split_ne_nil sep s)
      ∙ ap (λ r. sep ∷ r) (join-split sep s)
      ∙ ap (λ d. d ∷ s) (sym ((==_iff c sep).0 e)))
  | inr e ↦ rw e (
      join-onto_first sep c (split sep s) (split_ne_nil sep s) ∙ ap (λ r. c ∷ r) (join-split sep s))
]

-- The first character stays, if it is no white space.
pub trim_cons : (c : ℕ) (s : Text) → is_space c ≡ false → trim (c ∷ s) ≡ c ∷ trim_end s
unfolding trim trim_start trim_end
trim_cons c s h = rw h (rw h (go (is_empty (trim_end s))))
  where
    go : (b : Bool) → (if b && false then [] else c ∷ trim_end s) ≡ c ∷ trim_end s
    go true = refl
    go false = refl
