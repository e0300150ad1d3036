-- ===== src/Negotiation/Parts.antt =====
-- src/lib.rs: how `should_gzip` reads a part of an Accept-Encoding header.
use http_serve.Base.{
  ℕ, ◌≡◌, refl, none, some, [], ◌∷◌, ◌++◌, arith, Bytes, codes, All, zero, suc, ap, ◌≢◌, length,
  append-nil, All-append, take-length-append, drop,
}
use http_serve.Std.Str.{trim, position, split_once}
use http_serve.Std.Str.Laws.{Lacks, position-append, strip_prefix-append}
use http_serve.Std.Num.Laws.{IsDigit}
use http_serve.Negotiation.{parse_part}
use http_serve.Negotiation.Grammar.{
  Qvalue, zero_alone, zero_point, one_alone, one_point, zeros, print_qvalue, IsQvalue, Weight,
  unweighted, weighted, Coded, print_weight, text, quality_of, quality, IsBlank, IsCodingChar,
  IsWeight, IsCoded,
}
use http_serve.Negotiation.Trimmed.{All-weaken, IsVisible, trim-visible}
use http_serve.Negotiation.Qvalues.{parse_qvalue-print_qvalue}

-- not a separator
abbrev IsInner : ℕ → Type 0
IsInner c = (c ≢ b',') × (c ≢ b';')

blank-IsInner : (c : ℕ) → IsBlank c → IsInner c
blank-IsInner c h = (λ e. ground arith, λ e. ground arith)

-- neither a separator nor a blank
abbrev IsPlain : ℕ → Type 0
IsPlain c = IsInner c × IsVisible c

digit-IsPlain : (c : ℕ) → IsDigit c → IsPlain c
digit-IsPlain c h = (((λ e. omega arith), (λ e. omega arith)), omega arith)

zeros-IsDigit : (n : ℕ) → All IsDigit (zeros n)
zeros-IsDigit zero = tt
zeros-IsDigit (suc n) = ((omega arith, omega arith), zeros-IsDigit n)

point-IsPlain : IsPlain b'.'
point-IsPlain = (((λ e. omega arith), (λ e. omega arith)), omega arith)

print_qvalue-IsPlain : (q : Qvalue) → IsQvalue q → All IsPlain (print_qvalue q)
print_qvalue-IsPlain zero_alone h = (digit-IsPlain b'0' (omega arith, omega arith), tt)
print_qvalue-IsPlain (zero_point ds) h = (
  digit-IsPlain b'0' (omega arith, omega arith),
  (point-IsPlain, All-weaken digit-IsPlain ds h.0),
)
print_qvalue-IsPlain one_alone h = (digit-IsPlain b'1' (omega arith, omega arith), tt)
print_qvalue-IsPlain (one_point n) h = (
  digit-IsPlain b'1' (omega arith, omega arith),
  (point-IsPlain, All-weaken digit-IsPlain (zeros n) (zeros-IsDigit n)),
)

q-IsPlain : (q : Qvalue) → IsQvalue q → All IsPlain (codes "q=" ++ print_qvalue q)
q-IsPlain q h = (
  (((λ e. omega arith), (λ e. omega arith)), omega arith),
  ((((λ e. omega arith), (λ e. omega arith)), omega arith), print_qvalue-IsPlain q h),
)

plain-IsInner : (c : ℕ) → IsPlain c → IsInner c
plain-IsInner c h = h.0

plain-IsVisible : (c : ℕ) → IsPlain c → IsVisible c
plain-IsVisible c h = h.1

coding-IsInner : (c : ℕ) → IsCodingChar c → IsInner c
coding-IsInner c h = (h.1, h.2)

coding-IsVisible : (c : ℕ) → IsCodingChar c → IsVisible c
coding-IsVisible c h = h.0

inner-comma : (c : ℕ) → IsInner c → c ≢ b','
inner-comma c h = h.0

inner-semicolon : (c : ℕ) → IsInner c → c ≢ b';'
inner-semicolon c h = h.1

-- the part up to its `;`
abbrev front : Coded → Bytes
front i = i.before ++ (i.coding ++ i.after)

front-IsInner : (i : Coded) → IsCoded i → All IsInner (front i)
front-IsInner i (before, coding, after, ne, weight) =
    All-append IsInner i.before (i.coding ++ i.after) (All-weaken blank-IsInner i.before before) (
      All-append IsInner i.coding i.after (All-weaken coding-IsInner i.coding coding)
        (All-weaken blank-IsInner i.after after))

print_weight-Lacks : (w : Weight) → IsWeight w → Lacks b',' (print_weight w)
print_weight-Lacks unweighted h = tt
print_weight-Lacks (weighted between q behind) (hb, hq, he) =
    let value = codes "q=" ++ print_qvalue q in
    (
      (λ e. omega arith),
      All-weaken inner-comma (between ++ (value ++ behind)) (
          All-append IsInner between (value ++ behind) (All-weaken blank-IsInner between hb) (
            All-append IsInner value behind (All-weaken plain-IsInner value (q-IsPlain q hq))
              (All-weaken blank-IsInner behind he))),
    )

pub text-Lacks : (i : Coded) → IsCoded i → Lacks b',' (text i)
text-Lacks i h =
    All-append (λ c. c ≢ b',') (front i) (print_weight i.weight)
      (All-weaken inner-comma (front i) (front-IsInner i h)) (print_weight-Lacks i.weight h.4)

position-none : (c : ℕ) (p : Bytes) → Lacks c p → position c p ≡ none
unfolding position
position-none c [] h = refl
position-none c (x ∷ p) h = ground (arith, position-none c p)

split_once-none : (c : ℕ) (p : Bytes) → Lacks c p → split_once c p ≡ none
unfolding split_once
split_once-none c p h = rw (position-none c p h, split_once) refl

drop-past : (p : Bytes) (c : ℕ) (rest : Bytes) → drop (suc (length p)) (p ++ c ∷ rest) ≡ rest
drop-past [] c rest = refl
drop-past (x ∷ p) c rest = drop-past p c rest

split_once-append :
    (c : ℕ) (p rest : Bytes) → Lacks c p → split_once c (p ++ c ∷ rest) ≡ some (p, rest)
unfolding split_once
split_once-append c p rest h =
    rw (position-append c p rest h, split_once)
      (ap some (rw (take-length-append p (c ∷ rest), drop-past p c rest) refl))

front-trim : (i : Coded) → IsCoded i → trim (front i) ≡ i.coding
front-trim i h =
    trim-visible i.before i.coding i.after h.0 (All-weaken coding-IsVisible i.coding h.1) h.2 h.3

-- `should_gzip` reads a part as its coding and the quality that RFC 7231 gives to it.
pub parse_part-text :
    (i : Coded)
    → IsCoded i
    → parse_part (text i) (split_once b';' (text i)) ≡ some (i.coding, quality i)
parse_part-text i h = go i.weight h.4
  where
    lacks : Lacks b';' (front i)
    lacks = All-weaken inner-semicolon (front i) (front-IsInner i h)

    go :
        (w : Weight)
        → IsWeight w
        → parse_part (front i ++ print_weight w) (split_once b';' (front i ++ print_weight w))
          ≡ some (i.coding, quality_of w)
    go unweighted hw = rw (append-nil, split_once-none b';' (front i) lacks, front-trim i h) refl
    go (weighted between q behind) (hb, hq, he) =
        let value = codes "q=" ++ print_qvalue q in
        let rest = between ++ (value ++ behind) in
        let weighed : trim rest ≡ value =
          trim-visible between value behind hb (All-weaken plain-IsVisible value (q-IsPlain q hq))
            he (cc) in
        rw
          (
            split_once-append b';' (front i) rest lacks,
            front-trim i h,
            weighed,
            strip_prefix-append (codes "q=") (print_qvalue q),
            parse_qvalue-print_qvalue q hq,
          )
          refl
