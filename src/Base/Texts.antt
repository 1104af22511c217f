-- ===== src/Base/Texts.antt =====
-- Texts: the list of the UTF-8 bytes of a `std::string` or of a (valid) `QString`.
use Prim.Native.Nat.{ℕ, zero, suc, ◌+◌, ◌-◌}
use Prim.Native.Char.{code}
use Prim.Native.String.{String}
use mathlib.Core.Path.{◌≡◌, refl, ap, sym, ◌∙◌}
use mathlib.Core.Logic.{◌≢◌, ◌↔◌}
use mathlib.Core.Bool.{Bool, true, false, ◌&&◌}
use mathlib.Core.List.{List, [], ◌∷◌, ◌++◌}
use mathlib.Core.Option
use mathlib.Core.Option.{Option, none, some}
use native.Mathlib.Omega.{arith}
use flowdriver.Base.Tests.{nat_eq, if◌then◌else◌}
use flowdriver.Base.Lists.{length, All, take, drop, take-length-append, drop-length-append}

abbrev pub Text : Type 0
Text = List ℕ

-- The bytes of an ASCII literal. `String` has its own `[]` and `∷`.
abbrev pub codes : String → Text
codes String.[] = []
codes (String.◌∷◌ c s) = code c ∷ codes s

infix 50 ◌==◌
unfoldable pub ◌==◌ : Text → Text → Bool
◌==◌ [] [] = true
◌==◌ (x ∷ xs) (y ∷ ys) = nat_eq x y && xs == ys
◌==◌ _ _ = false

pub eq_iff : (s t : Text) → ((s == t) ≡ true) ↔ (s ≡ t)
unfolding ◌==◌
eq_iff [] [] = ground arith
eq_iff [] (y ∷ ys) = ground arith
eq_iff (x ∷ xs) [] = ground arith
eq_iff (x ∷ xs) (y ∷ ys) = ground (arith, eq_iff xs ys)

pub eq_refl : (s : Text) → (s == s) ≡ true
eq_refl s = (eq_iff s s).1 refl

abbrev pub is_empty : Text → Bool
is_empty [] = true
is_empty (_ ∷ _) = false

-- `s.startsWith(p)`.
unfoldable pub starts_with : Text → Text → Bool
starts_with s [] = true
starts_with [] (y ∷ ys) = false
starts_with (x ∷ xs) (y ∷ ys) = nat_eq x y && starts_with xs ys

pub starts_with-append : (p s : Text) → starts_with (p ++ s) p ≡ true
unfolding starts_with
starts_with-append [] s = refl
starts_with-append (x ∷ p) s = ground (arith, starts_with-append p s)

pub starts_with_iff : (s p : Text) → (starts_with s p ≡ true) ↔ ((t : Text) × (s ≡ p ++ t))
unfolding starts_with
starts_with_iff s [] = (λ e. (s, refl), λ e. refl)
starts_with_iff [] (y ∷ ys) = (λ e. cc, λ e. cc)
starts_with_iff (x ∷ xs) (y ∷ ys) = (
  λ e. let (t, f) = (starts_with_iff xs ys).0 (ground arith) in (t, ground arith),
  λ (t, f). ground (arith, (starts_with_iff xs ys).1 (t, ground arith)),
)

-- `s.find(c)`: the first position of a byte.
unfoldable pub find : ℕ → Text → Option ℕ
find c [] = none
find c (x ∷ s) = if nat_eq x c then some 0 else Option.map suc (find c s)

-- `s.find(c, start)`.
unfoldable pub find_from : ℕ → ℕ → Text → Option ℕ
find_from c start s = Option.map (λ p. start + p) (find c (drop start s))

-- `s.find(p)` for a text p: the first position at which p begins.
unfoldable pub find_text : Text → Text → Option ℕ
find_text p [] = if is_empty p then some 0 else none
find_text p (x ∷ s) = if starts_with (x ∷ s) p then some 0 else Option.map suc (find_text p s)

-- No byte of the text is `c`.
abbrev pub Lacks : ℕ → Text → Type 0
Lacks c = All (λ x. x ≢ c)

-- The search stops at the first delimiter behind a text that lacks it.
pub find-append : (c : ℕ) (s t : Text) → Lacks c s → find c (s ++ c ∷ t) ≡ some (length s)
unfolding find
find-append c [] t h = ground arith
find-append c (x ∷ s) t h = ground (arith, find-append c s t h.1)

pub find-Lacks : (c : ℕ) (s : Text) → Lacks c s → find c s ≡ none
unfolding find
find-Lacks c [] h = refl
find-Lacks c (x ∷ s) h = ground (arith, find-Lacks c s h.1)

pub Lacks-find : (c : ℕ) (s : Text) → find c s ≡ none → Lacks c s
unfolding find
Lacks-find c [] h = tt
Lacks-find c (x ∷ s) h = (ground arith, Lacks-find c s (ground arith))

pub Lacks-take-find : (c p : ℕ) (s : Text) → find c s ≡ some p → Lacks c (take p s)
unfolding find
Lacks-take-find c p [] h = cc
Lacks-take-find c zero (x ∷ s) h = tt
Lacks-take-find c (suc p) (x ∷ s) h = (ground arith, Lacks-take-find c p s (ground arith))

pub drop-find : (c p : ℕ) (s : Text) → find c s ≡ some p → (t : Text) × (drop p s ≡ c ∷ t)
unfolding find
drop-find c p [] h = cc
drop-find c zero (x ∷ s) h = (s, ground arith)
drop-find c (suc p) (x ∷ s) h = drop-find c p s (ground arith)

pub Lacks-take : (c n : ℕ) (s : Text) → Lacks c s → Lacks c (take n s)
Lacks-take c zero s h = tt
Lacks-take c (suc n) [] h = tt
Lacks-take c (suc n) (x ∷ s) h = (h.0, Lacks-take c n s h.1)

pub Lacks-append : (c : ℕ) (s t : Text) → Lacks c s → Lacks c t → Lacks c (s ++ t)
Lacks-append c [] t h k = k
Lacks-append c (x ∷ s) t h k = (h.0, Lacks-append c s t h.1 k)

drop-nil : (n : ℕ) → drop {A = ℕ} n [] ≡ []
drop-nil zero = refl
drop-nil (suc n) = refl

zero-add : (n : ℕ) → zero + n ≡ n
zero-add n = omega arith

pub suc-add : (m n : ℕ) → suc m + n ≡ suc (m + n)
suc-add m n = omega arith

pub drop-add : (m n : ℕ) (s : Text) → drop (m + n) s ≡ drop n (drop m s)
drop-add zero n s = ap (λ k. drop k s) (zero-add n)
drop-add (suc m) n [] = ap (λ k. drop k []) (suc-add m n) ∙ sym (drop-nil n)
drop-add (suc m) n (x ∷ s) = ap (λ k. drop k (x ∷ s)) (suc-add m n) ∙ drop-add m n s

pub add_sub_left : (m n : ℕ) → m + n - m ≡ n
add_sub_left m n = omega arith

-- A delimiter cuts a text into what stands before it and what stands behind it.
pub drop-append_suc : (c : ℕ) (s t : Text) → drop (length s + 1) (s ++ c ∷ t) ≡ t
drop-append_suc c s t =
    drop-add (length s) 1 (s ++ c ∷ t) ∙ ap (λ (u : Text). drop 1 u) (drop-length-append s (c ∷ t))

-- Slicing by positions that were found behind a start.
pub take_behind :
    (start : ℕ) (url s t : Text)
    → drop start url ≡ s ++ t
    → take (start + length s - start) (drop start url) ≡ s
take_behind start url s t e =
    ap (λ k. take k (drop start url)) (add_sub_left start (length s))
    ∙ (ap (take (length s)) e ∙ take-length-append s t)

pub drop_behind :
    (start : ℕ) (url s t : Text) → drop start url ≡ s ++ t → drop (start + length s) url ≡ t
drop_behind start url s t e =
    drop-add start (length s) url ∙ (ap (drop (length s)) e ∙ drop-length-append s t)

pub Lacks-drop : (c n : ℕ) (s : Text) → Lacks c s → Lacks c (drop n s)
Lacks-drop c zero s h = h
Lacks-drop c (suc n) [] h = tt
Lacks-drop c (suc n) (x ∷ s) h = Lacks-drop c n s h.1

pub append-take-drop : (n : ℕ) (s : Text) → take n s ++ drop n s ≡ s
append-take-drop zero s = refl
append-take-drop (suc n) [] = refl
append-take-drop (suc n) (x ∷ s) = ap (λ t. x ∷ t) (append-take-drop n s)
