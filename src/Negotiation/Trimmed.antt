-- ===== src/Negotiation/Trimmed.antt =====
-- src/lib.rs: `trim` of a text with blanks around it.
use http_serve.Base.{ℕ, ◌≡◌, refl, [], ◌∷◌, ◌++◌, arith, Bytes, All, ◌<◌, ap, ◌∙◌, ◌≢◌, true, false}
use http_serve.Std.Str.{trim, trim_start_matches, trim_end_matches, is_whitespace}
use http_serve.Std.Str.Laws.{trim_start_matches-append}
use http_serve.Negotiation.Grammar.{IsBlank}

pub All-weaken : {P Q : ℕ → Type 0} → ((c : ℕ) → P c → Q c) → (s : Bytes) → All P s → All Q s
All-weaken f [] h = tt
All-weaken f (c ∷ s) h = (f c h.0, All-weaken f s h.1)

abbrev pub IsVisible : ℕ → Type 0
IsVisible c = 32 < c

blank-is_whitespace : (c : ℕ) → IsBlank c → is_whitespace c ≡ true
blank-is_whitespace c h = ground arith

visible-is_whitespace : (c : ℕ) → IsVisible c → is_whitespace c ≡ false
visible-is_whitespace c h = ground arith

trim_end_matches-blanks : (s : Bytes) → All IsBlank s → trim_end_matches is_whitespace s ≡ []
unfolding trim_end_matches
trim_end_matches-blanks [] h = refl
trim_end_matches-blanks (c ∷ s) h =
    rw (trim_end_matches-blanks s h.1, blank-is_whitespace c h.0) refl

trim_end_matches-visible :
    (t b : Bytes) → All IsVisible t → All IsBlank b → trim_end_matches is_whitespace (t ++ b) ≡ t
unfolding trim_end_matches
trim_end_matches-visible [] b v h = trim_end_matches-blanks b h
trim_end_matches-visible (c ∷ []) b v h =
    rw (trim_end_matches-blanks b h, visible-is_whitespace c v.0) refl
trim_end_matches-visible (c ∷ d ∷ t) b v h = rw (trim_end_matches-visible (d ∷ t) b v.1 h) refl

pub trim-visible :
    (a t b : Bytes)
    → All IsBlank a
    → All IsVisible t
    → All IsBlank b
    → t ≢ []
    → trim (a ++ (t ++ b)) ≡ t
unfolding trim trim_start_matches
trim-visible a [] b ha v hb ne = absurd (ne refl)
trim-visible a (c ∷ t) b ha v hb ne =
    ap (trim_end_matches is_whitespace) {y = c ∷ t ++ b} (
      trim_start_matches-append is_whitespace a (c ∷ t ++ b) (All-weaken blank-is_whitespace a ha)
      ∙ rw (visible-is_whitespace c v.0) refl)
    ∙ trim_end_matches-visible (c ∷ t) b v hb
