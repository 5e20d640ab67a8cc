-- ===== src/Env/Files/RoundTrip.antt =====
-- loadEnvFile reads what generateConfig of scripts/deployment/env-manager.ts wrote.
use mathlib.Core.List.{Memᴰ}
use mathlib.Core.List.Memᴰ.{head, tail}
use mathlib.Core.Bool.{true≢false}
use via_solana_gateway_v.Prelude.{
  ℕ, ◌≡◌, ◌≢◌, refl, sym, ap, ap₂, subst, ◌∙◌, ◌⊎◌, inl, inr, Bool, true, false, List, [], ◌∷◌,
  ◌++◌, none, some, All, ◌==◌, if◌then◌else◌, arith, Text, codes, text_eq, text_eq_iff,
  text_eq_refl, Bool-cases, ==_iff,
}
use via_solana_gateway_v.Prelude.Words.{
  append-Lacks, is_space, trim, trim_start, trim_end, starts_with, split, join, Lacks, IsWord,
  trim-IsWord, trim_cons, append-IsWord, split-append, join-split, split_ne_nil,
}
use via_solana_gateway_v.Network.Types.{entry}
use via_solana_gateway_v.Env.Files.{
  unlines, value_of, assignment, comment, put_entry, from_parts, parse_trimmed, parse_line, put_if,
  load_lines,
}

-- A key of the file: a word without `=` that does not start with `#`.
abbrev pub IsKey : Text → Type 0
IsKey key = IsWord key × Lacks 61 key × (starts_with (codes "#") key ≡ false) × (key ≢ [])

parse_line-comment : (text : Text) → parse_line (comment text) ≡ none
unfolding parse_line parse_trimmed comment starts_with is_space
parse_line-comment text = rw (trim_cons 35 (32 ∷ text) refl) refl

parse_line_blank : parse_line [] ≡ none
unfolding parse_line parse_trimmed trim trim_start trim_end
parse_line_blank = refl

from_parts_lem :
    (c : ℕ) (k : Text) (parts : List Text)
    → parts ≢ []
    → from_parts ((c ∷ k) ∷ parts) ≡ some (trim (c ∷ k), trim (join 61 parts))
unfolding from_parts
from_parts_lem c k [] n = absurd (n refl)
from_parts_lem c k (p ∷ parts) n = refl

pub parse_line-assignment :
    (key value : Text)
    → IsKey key
    → IsWord value
    → parse_line (assignment key value) ≡ some (key, value)
unfolding parse_line parse_trimmed assignment is_space starts_with
parse_line-assignment [] value (w, l, h, n) v = absurd (n refl)
parse_line-assignment (c ∷ k) value (w, l, h, n) v =
    rw (trim-IsWord (c ∷ (k ++ (61 ∷ value))) (append-IsWord (c ∷ k) (61 ∷ value) w (refl, v))) (
      rw h (
        rw (split-append 61 (c ∷ k) value l) (
          from_parts_lem c k (split 61 value) (split_ne_nil 61 value)
          ∙ ap₂ (λ a b. some (a, b)) (trim-IsWord (c ∷ k) w)
              (ap trim (join-split 61 value) ∙ trim-IsWord value v))))

entry-put_entry :
    (j key value : Text) (env : List (Text × Text))
    → entry j (put_entry key value env) ≡ (if text_eq key j then some value else entry j env)
unfolding entry put_entry
entry-put_entry j key value [] = refl
entry-put_entry j key value ((k, v) ∷ env) =
    ground (
      arith,
      entry-put_entry j key value env,
      text_eq_iff k key,
      text_eq_iff k j,
      text_eq_iff key j,
    )

module _ (f : Text → Text) where
  -- A line that assigns nothing, or to a key what `f` gives for it.
  abbrev pub Agrees : Text → Type 0
  Agrees line = (parse_line line ≡ none) ⊎ ((key : Text) × (parse_line line ≡ some (key, f key)))

  put_if-agreed :
      (key : Text) (line : Text) (env : List (Text × Text))
      → Agrees line
      → entry key env ≡ some (f key)
      → entry key (put_if (parse_line line) env) ≡ some (f key)
  put_if-agreed key line env (inl e) h = rw e h
  put_if-agreed key line env (inr (k, e)) h =
      rw e (rw (entry-put_entry key k (f k) env) (go (text_eq k key) refl))
    where
      go : (b : Bool) → text_eq k key ≡ b → (if b then some (f k) else entry key env) ≡ some (f key)
      go true same = ap (λ j. some (f j)) ((text_eq_iff k key).0 same)
      go false other = h

  load_lines-agreed :
      (key : Text) (lines : List Text) (env : List (Text × Text))
      → All Agrees lines
      → entry key env ≡ some (f key)
      → entry key (load_lines lines env) ≡ some (f key)
  unfolding load_lines
  load_lines-agreed key [] env a h = h
  load_lines-agreed key (line ∷ lines) env (a, ag) h =
      load_lines-agreed key lines _ ag (put_if-agreed key line env a h)

  pub load_lines-assigned :
      (key line : Text) (lines : List Text) (env : List (Text × Text))
      → Memᴰ line lines
      → parse_line line ≡ some (key, f key)
      → All Agrees lines
      → entry key (load_lines lines env) ≡ some (f key)
  unfolding load_lines
  load_lines-assigned key line [] env x e a = elim x [ ]
  load_lines-assigned key line (l ∷ lines) env (tail m) e (a, ag) =
      load_lines-assigned key line lines _ m e ag
  load_lines-assigned key line (l ∷ lines) env (head same) e (a, ag) =
      load_lines-agreed key lines (put_if (parse_line l) env) ag (
        subst (λ x. entry key (put_if (parse_line x) env) ≡ some (f key)) same
          (subst (λ o. entry key (put_if o env) ≡ some (f key)) (sym e)
            (rw (entry-put_entry key key (f key) env) (rw (text_eq_refl key) refl))))

pub All-append :
    {A : Type 0} (P : A → Type 0) (xs ys : List A) → All P xs → All P ys → All P (xs ++ ys)
All-append P [] ys h k = k
All-append P (x ∷ xs) ys (h, hs) k = (h, All-append P xs ys hs k)

pub mem_left : {A : Type 0} {x : A} (xs ys : List A) → Memᴰ x xs → Memᴰ x (xs ++ ys)
mem_left [] ys m = elim m [ ]
mem_left (y ∷ xs) ys (head e) = head e
mem_left (y ∷ xs) ys (tail m) = tail (mem_left xs ys m)

pub mem_right : {A : Type 0} {x : A} (xs ys : List A) → Memᴰ x ys → Memᴰ x (xs ++ ys)
mem_right [] ys m = m
mem_right (y ∷ xs) ys m = tail (mem_right xs ys m)

pub split-unlines :
    (lines : List Text) → All (Lacks 10) lines → split 10 (unlines lines) ≡ lines ++ [] ∷ []
unfolding unlines split
split-unlines [] h = refl
split-unlines (line ∷ lines) (h, hs) =
    split-append 10 line (unlines lines) h ∙ ap (λ ls. line ∷ ls) (split-unlines lines hs)

is_space_break : is_space 10 ≡ true
unfolding is_space
is_space_break = refl

space_ne_break : (c : ℕ) → is_space c ≡ false → (c == 10) ≡ false
space_ne_break c h = elim (Bool-cases (c == 10)) [
  | inl e ↦ absurd (true≢false (sym is_space_break ∙ ap is_space (sym ((==_iff c 10).0 e)) ∙ h))
  | inr e ↦ e
]

pub IsWord-Lacks : (s : Text) → IsWord s → Lacks 10 s
IsWord-Lacks [] h = tt
IsWord-Lacks (c ∷ s) (h, hs) = (space_ne_break c h, IsWord-Lacks s hs)

module _ (config : List (Text × Text)) where
  -- A line of the file: it assigns nothing, or to a key its value in the configuration.
  abbrev pub Good : Text → Type 0
  Good line = Agrees (value_of config) line × Lacks 10 line

  pub comment-Good : (text : Text) → Lacks 10 text → Good (comment text)
  unfolding comment
  comment-Good text h = (inl (parse_line-comment text), (refl, (refl, h)))

  pub blank-Good : Good []
  blank-Good = (inl parse_line_blank, tt)

  pub assignment-Good :
      (key : Text)
      → IsKey key
      → IsWord (value_of config key)
      → Good (assignment key (value_of config key))
  unfolding assignment
  assignment-Good key k v = (
    inr (key, parse_line-assignment key _ k v),
    append-Lacks 10 key (61 ∷ value_of config key) (IsWord-Lacks key k.0) (refl, IsWord-Lacks _ v),
  )
