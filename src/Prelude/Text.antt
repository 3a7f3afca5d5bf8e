-- ===== src/Prelude/Text.antt =====
-- Rust's `str` as the list of its code points, with the methods that the sources call.
pub mod Decimal
use Prim.Native.Char.{code}
use Prim.Native.String.{String}
use mathlib.Core.List.{append_assoc}
use hyperiondb.Prelude.{
  ℕ, ◌≡◌, ◌≢◌, ◌↔◌, refl, ap, Bool, true, false, not, ◌&&◌, ◌||◌, Option, none, some, List, [], ◌∷◌,
  ◌++◌, arith, leb, ◌==◌, ==_iff, if◌then◌else◌, All, All-append, ◌∙◌,
}

abbrev pub Text : Type 0
Text = List ℕ

abbrev pub codes : String → Text
codes String.[] = []
codes (String.◌∷◌ c s) = code c ∷ codes s

abbrev pub text_eq : Text → Text → Bool
text_eq [] [] = true
text_eq [] (d ∷ t) = false
text_eq (c ∷ s) [] = false
text_eq (c ∷ s) (d ∷ t) = c == d && text_eq s t

abbrev pub is_empty : Text → Bool
is_empty [] = true
is_empty (c ∷ s) = false

-- `char::is_whitespace`
unfoldable pub is_white : ℕ → Bool
is_white c =
    (leb 9 c && leb c 13)
    || (c == 32
        || (c == 133
            || (c == 160
                || (c == 5760
                    || ((leb 8192 c && leb c 8202)
                        || (c == 8232
                            || (c == 8233 || (c == 8239 || (c == 8287 || c == 12288)))))))))

abbrev pub trim_start : Text → Text
trim_start [] = []
trim_start (c ∷ s) = let rest = trim_start s in if is_white c then rest else c ∷ s

abbrev pub cons_unless : Bool → ℕ → Text → Text
cons_unless b c [] = if b then [] else c ∷ []
cons_unless b c (d ∷ s) = c ∷ d ∷ s

abbrev pub trim_end : Text → Text
trim_end [] = []
trim_end (c ∷ s) = cons_unless (is_white c) c (trim_end s)

abbrev pub trim : Text → Text
trim s = trim_end (trim_start s)

abbrev pub onto_first : ℕ → List Text → List Text
onto_first c [] = (c ∷ []) ∷ []
onto_first c (p ∷ ps) = (c ∷ p) ∷ ps

-- `split` by a character
abbrev pub split : ℕ → Text → List Text
split sep [] = [] ∷ []
split sep (c ∷ s) = let rest = split sep s in if c == sep then [] ∷ rest else onto_first c rest

abbrev pub onto_front : ℕ → Option (Text × Text) → Option (Text × Text)
onto_front c none = none
onto_front c (some r) = some (c ∷ r.0, r.1)

abbrev pub split_once : ℕ → Text → Option (Text × Text)
split_once sep [] = none
split_once sep (c ∷ s) =
    let rest = split_once sep s in if c == sep then some ([], s) else onto_front c rest

abbrev pub or_here : Bool → Text → Option (Text × Text) → Option (Text × Text)
or_here b s (some r) = some r
or_here b s none = if b then some ([], s) else none

abbrev pub rsplit_once : ℕ → Text → Option (Text × Text)
rsplit_once sep [] = none
rsplit_once sep (c ∷ s) = or_here (c == sep) s (onto_front c (rsplit_once sep s))

-- `join`
abbrev pub join : Text → List Text → Text
join sep [] = []
join sep (p ∷ []) = p
join sep (p ∷ (q ∷ ps)) = p ++ sep ++ join sep (q ∷ ps)

abbrev pub Lacks : ℕ → Text → Type 0
Lacks sep s = All (λ c. c ≢ sep) s

pub text_eq_iff : (s t : Text) → (text_eq s t ≡ true) ↔ (s ≡ t)
text_eq_iff [] [] = (λ _. refl, λ _. refl)
text_eq_iff [] (d ∷ t) = (λ e. absurd cc, λ e. absurd cc)
text_eq_iff (c ∷ s) [] = (λ e. absurd cc, λ e. absurd cc)
text_eq_iff (c ∷ s) (d ∷ t) = ground (arith, text_eq_iff s t)

onto_first-append :
    (c : ℕ) (ps qs : List Text) → ps ≢ [] → onto_first c (ps ++ qs) ≡ onto_first c ps ++ qs
onto_first-append c [] qs h = absurd (h refl)
onto_first-append c (p ∷ ps) qs h = refl

onto_first-ne-nil : (c : ℕ) (ps : List Text) → onto_first c ps ≢ []
onto_first-ne-nil c [] = λ e. absurd cc
onto_first-ne-nil c (p ∷ ps) = λ e. absurd cc

split-ne-nil : (sep : ℕ) (s : Text) → split sep s ≢ []
split-ne-nil sep [] = λ e. cc
split-ne-nil sep (c ∷ s) = ground (arith, onto_first-ne-nil c (split sep s))

-- Splitting at a separator that is written splits both sides.
pub split-append : (sep : ℕ) (s t : Text) → split sep (s ++ sep ∷ t) ≡ split sep s ++ split sep t
split-append sep [] t = ground arith
split-append sep (c ∷ s) t = ground (
  arith,
  split-append sep s t,
  onto_first-append c (split sep s) (split sep t) (split-ne-nil sep s),
)

pub split-Lacks : (sep : ℕ) (s : Text) → Lacks sep s → split sep s ≡ s ∷ []
split-Lacks sep [] h = refl
split-Lacks sep (c ∷ s) (away, h) = ground (arith, split-Lacks sep s h)

pub split_once-append :
    (sep : ℕ) (s t : Text) → Lacks sep s → split_once sep (s ++ sep ∷ t) ≡ some (s, t)
split_once-append sep [] t h = ground arith
split_once-append sep (c ∷ s) t (away, h) = ground (arith, split_once-append sep s t h)

pub rsplit_once-Lacks : (sep : ℕ) (t : Text) → Lacks sep t → rsplit_once sep t ≡ none
rsplit_once-Lacks sep [] h = refl
rsplit_once-Lacks sep (c ∷ t) (away, h) = ground (arith, rsplit_once-Lacks sep t h)

pub rsplit_once-append :
    (sep : ℕ) (s t : Text) → Lacks sep t → rsplit_once sep (s ++ sep ∷ t) ≡ some (s, t)
rsplit_once-append sep [] t h = ground (arith, rsplit_once-Lacks sep t h)
rsplit_once-append sep (c ∷ s) t h = ground (arith, rsplit_once-append sep s t h)

pub Lacks-append : (sep : ℕ) (s t : Text) → Lacks sep s → Lacks sep t → Lacks sep (s ++ t)
Lacks-append sep s t h k = All-append (λ (c : ℕ). c ≢ sep) s t h k

pub cons_unless-kept :
    (c : ℕ) (s : Text) → is_white c ≡ false → cons_unless (is_white c) c s ≡ c ∷ s
cons_unless-kept c [] h = simp h refl
cons_unless-kept c (d ∷ s) h = refl

cons_unless-long :
    (d : ℕ) (s : Text) (c : ℕ) (t : Text)
    → cons_unless (is_white d) d (s ++ c ∷ t) ≡ d ∷ (s ++ c ∷ t)
cons_unless-long d [] c t = refl
cons_unless-long d (e ∷ s) c t = refl

-- Spaces behind a character that is none are trimmed as if they stood alone.
pub trim_end-append :
    (s t : Text) (c : ℕ) → is_white c ≡ false → trim_end (s ++ c ∷ t) ≡ s ++ c ∷ trim_end t
trim_end-append [] t c h = cons_unless-kept c (trim_end t) h
trim_end-append (d ∷ s) t c h =
    ap (cons_unless (is_white d) d) (trim_end-append s t c h) ∙ cons_unless-long d s c (trim_end t)

trim_start-kept : (c : ℕ) (s : Text) → is_white c ≡ false → trim_start (c ∷ s) ≡ c ∷ s
trim_start-kept c s h = simp h refl

-- A text that starts with a character that is no space and ends trimmed is trimmed.
pub trim-cons : (c : ℕ) (s : Text) → is_white c ≡ false → trim (c ∷ s) ≡ c ∷ trim_end s
trim-cons c s h = ap trim_end (trim_start-kept c s h) ∙ cons_unless-kept c (trim_end s) h
