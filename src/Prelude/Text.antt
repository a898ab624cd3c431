-- ===== src/Prelude/Text.antt =====
-- Python's `str` operations that the program uses, by recursion on the characters.
use Prim.Native.Nat.{ℕ, zero, suc, ◌+◌, ◌/◌, ◌%◌, ◌≤◌}
use Prim.Native.Char.{Char, code}
use Prim.Native.String.{String, [], ◌∷◌}
use mathlib.Core.Path.{◌≡◌, refl, ap, sym, ◌∙◌}
use mathlib.Core.Bool.{Bool, true, false, ◌&&◌, ◌||◌}
use mathlib.Core.Option.{Option, none, some}
use native.Mathlib.Nat.{zero-add, suc-add}
use native.Mathlib.Omega.{arith}
use ai_voice.Prelude.Tests.{nat_beq, ltb, if◌then◌else◌}

-- s + t
unfoldable pub append : String → String → String
append [] t = t
append (c ∷ s) t = c ∷ append s t

-- len(s)
unfoldable pub count : String → ℕ
count [] = 0
count (c ∷ s) = suc (count s)

-- s[:n] and s[n:]
unfoldable pub text_take : ℕ → String → String
text_take zero s = []
text_take (suc n) [] = []
text_take (suc n) (c ∷ s) = c ∷ text_take n s

unfoldable pub text_drop : ℕ → String → String
text_drop zero s = s
text_drop (suc n) [] = []
text_drop (suc n) (c ∷ s) = text_drop n s

-- The text before the first character of this code and the text behind it.
unfoldable pub split_first : ℕ → String → Option (String × String)
split_first sep [] = none
split_first sep (c ∷ s) =
    let rest = split_first sep s in
    if nat_beq (code c) sep
    then some ([], s)
    else elim rest [ none ↦ none | some (a, b) ↦ some (c ∷ a, b) ]

-- No character has this code.
unfoldable pub lacks : ℕ → String → Bool
lacks sep [] = true
lacks sep (c ∷ s) = if nat_beq (code c) sep then false else lacks sep s

abbrev digit : ℕ → String
digit zero = "0"
digit (suc zero) = "1"
digit (suc (suc zero)) = "2"
digit (suc (suc (suc zero))) = "3"
digit (suc (suc (suc (suc zero)))) = "4"
digit (suc (suc (suc (suc (suc zero))))) = "5"
digit (suc (suc (suc (suc (suc (suc zero)))))) = "6"
digit (suc (suc (suc (suc (suc (suc (suc zero))))))) = "7"
digit (suc (suc (suc (suc (suc (suc (suc (suc zero)))))))) = "8"
digit _ = "9"

-- The decimal digits of a number below 10 ^ fuel.
digits : ℕ → ℕ → String
digits zero n = []
digits (suc fuel) n =
    let more = digits fuel (n / 10) in if ltb n 10 then digit n else append more (digit (n % 10))

-- str(n)
unfoldable pub str_int : ℕ → String
unfolding digits append
str_int n = digits (suc n) n

-- repr(s), of a text with no quote, backslash or control character in it
unfoldable pub repr : String → String
unfolding append
repr s = append "'" (append s "'")

pub append_assoc : (a b c : String) → append (append a b) c ≡ append a (append b c)
unfolding append
append_assoc [] b c = refl
append_assoc (x ∷ a) b c = ap (λ s. x ∷ s) (append_assoc a b c)

pub append-nil : (a : String) → append a [] ≡ a
unfolding append
append-nil [] = refl
append-nil (x ∷ a) = ap (λ s. x ∷ s) (append-nil a)

pub count-append : (a b : String) → count (append a b) ≡ count a + count b
unfolding append count
count-append [] b = omega arith
count-append (x ∷ a) b = omega (arith, count-append a b)

pub text_take-append : (a b : String) → text_take (count a) (append a b) ≡ a
unfolding append count text_take
text_take-append [] b = refl
text_take-append (x ∷ a) b = ap (λ s. x ∷ s) (text_take-append a b)

pub text_drop-append : (a b : String) → text_drop (count a) (append a b) ≡ b
unfolding append count text_drop
text_drop-append [] b = refl
text_drop-append (x ∷ a) b = text_drop-append a b

-- The rest of a text behind a first part.
pub append-left_cancel : (a b c : String) → append a b ≡ append a c → b ≡ c
append-left_cancel a b c h =
    sym (text_drop-append a b) ∙ ap (text_drop (count a)) h ∙ text_drop-append a c

pub split_first-append :
    (sep : ℕ) (a : String) (c : Char) (b : String)
    → lacks sep a ≡ true
    → code c ≡ sep
    → split_first sep (append a (c ∷ b)) ≡ some (a, b)
unfolding split_first append lacks
split_first-append sep [] c b h k = ground arith
split_first-append sep (x ∷ a) c b h k = ground (arith, split_first-append sep a c b)

pub text_drop-append_le :
    (n : ℕ) (a b : String) → n ≤ count a → text_drop n (append a b) ≡ append (text_drop n a) b
unfolding append count text_drop
text_drop-append_le zero a b h = refl
text_drop-append_le (suc n) [] b h = absurd (omega arith)
text_drop-append_le (suc n) (x ∷ a) b h = text_drop-append_le n a b (omega arith)

pub text_drop-append_add :
    (n : ℕ) (a b : String) → text_drop (count a + n) (append a b) ≡ text_drop n b
unfolding append count text_drop
text_drop-append_add n [] b = rw (zero-add)
text_drop-append_add n (x ∷ a) b = rw suc-add (text_drop-append_add n a b)

-- s.startswith(t)
unfoldable pub starts_with : String → String → Bool
starts_with [] s = true
starts_with (c ∷ t) [] = false
starts_with (c ∷ t) (d ∷ s) = let rest = starts_with t s in nat_beq (code c) (code d) && rest

-- t in s
unfoldable pub occurs : String → String → Bool
occurs t [] = starts_with t []
occurs t (d ∷ s) = starts_with t (d ∷ s) || occurs t s

starts_with_trans :
    (t u s : String) → starts_with t u ≡ true → starts_with u s ≡ true → starts_with t s ≡ true
unfolding starts_with
starts_with_trans [] u s h k = refl
starts_with_trans (c ∷ t) [] s h k = absurd (ground arith)
starts_with_trans (c ∷ t) (d ∷ u) [] h k = absurd (ground arith)
starts_with_trans (c ∷ t) (d ∷ u) (e ∷ s) h k = ground (arith, starts_with_trans t u s)

occurs-starts_with :
    (t u s : String) → occurs t u ≡ true → starts_with u s ≡ true → occurs t s ≡ true
unfolding occurs starts_with
occurs-starts_with t [] [] h k = h
occurs-starts_with t [] (e ∷ s) h k =
    ground (arith, starts_with_trans t [] (e ∷ s), occurs-starts_with t [] s h)
occurs-starts_with t (d ∷ u) [] h k = absurd (ground arith)
occurs-starts_with t (d ∷ u) (e ∷ s) h k =
    ground (arith, starts_with_trans t (d ∷ u) (e ∷ s), occurs-starts_with t u s)

-- What occurs in a part occurs in the whole.
pub occurs_trans : (t u s : String) → occurs t u ≡ true → occurs u s ≡ true → occurs t s ≡ true
unfolding occurs
occurs_trans t u [] h k = occurs-starts_with t u [] h k
occurs_trans t u (e ∷ s) h k =
    ground (arith, occurs-starts_with t u (e ∷ s) h, occurs_trans t u s h)

lacks-digit : (n : ℕ) → lacks b'<' (digit n) ≡ true
unfolding lacks
lacks-digit zero = refl
lacks-digit (suc zero) = refl
lacks-digit (suc (suc zero)) = refl
lacks-digit (suc (suc (suc zero))) = refl
lacks-digit (suc (suc (suc (suc zero)))) = refl
lacks-digit (suc (suc (suc (suc (suc zero))))) = refl
lacks-digit (suc (suc (suc (suc (suc (suc zero)))))) = refl
lacks-digit (suc (suc (suc (suc (suc (suc (suc zero))))))) = refl
lacks-digit (suc (suc (suc (suc (suc (suc (suc (suc zero)))))))) = refl
lacks-digit (suc (suc (suc (suc (suc (suc (suc (suc (suc n))))))))) = refl

pub lacks-append :
    (k : ℕ) (a b : String) → lacks k a ≡ true → lacks k b ≡ true → lacks k (append a b) ≡ true
unfolding lacks append
lacks-append k [] b h l = l
lacks-append k (c ∷ a) b h l = ground (arith, lacks-append k a b)

lacks-digits : (fuel n : ℕ) → lacks b'<' (digits fuel n) ≡ true
unfolding digits lacks
lacks-digits zero n = refl
lacks-digits (suc fuel) n = ground (
  arith,
  lacks-digit n,
  lacks-digit (n % 10),
  lacks-digits fuel (n / 10),
  lacks-append b'<' (digits fuel (n / 10)) (digit (n % 10)),
)

-- A decimal number has no "<" in it.
pub lacks-str_int : (n : ℕ) → lacks b'<' (str_int n) ≡ true
unfolding str_int
lacks-str_int n = lacks-digits (suc n) n

-- The first part of a text in front of the same end.
pub append-right_cancel : (a b c : String) → append a c ≡ append b c → a ≡ b
append-right_cancel a b c h =
    let same : count a ≡ count b = omega (arith, ap count h, count-append a c, count-append b c) in
    sym (text_take-append a c) ∙ (λ i. text_take (same i) (h i)) ∙ text_take-append b c

-- The number of the last character, or one for the empty text.
unfoldable pub last_code : ℕ → String → ℕ
last_code d [] = d
last_code d (c ∷ s) = last_code (code c) s

pub last_code-append :
    (d : ℕ) (a : String) (c : Char) (s : String)
    → last_code d (append a (c ∷ s)) ≡ last_code d (c ∷ s)
unfolding last_code append
last_code-append d [] c s = refl
last_code-append d (x ∷ a) c s = last_code-append (code x) a c s
