-- ===== src/Negotiation/Qvalues.antt =====
-- src/lib.rs: `parse_qvalue` on the qvalues of RFC 7231.
use http_serve.Base.{
  ℕ, ◌≡◌, refl, some, [], ◌∷◌, arith, Bytes, All, zero, suc, ◌+◌, ◌-◌, ◌*◌, ◌≤◌, ◌<◌, ap, ◌∙◌,
  length, bytes_eq, u16_max,
}
use http_serve.Std.Str.{starts_with}
use http_serve.Std.Num.{read_digits, u16_from_str}
use http_serve.Std.Num.Laws.{IsDigit, from_str-read_digits}
use http_serve.Negotiation.{thousandths, parse_qvalue, starts_with}
use http_serve.Negotiation.Grammar.{
  Qvalue, zero_alone, zero_point, one_alone, one_point, print_qvalue, IsQvalue, weigh, value_of,
}

read_digits-step :
    (c n v : ℕ) (s : Bytes)
    → IsDigit c
    → n ≤ 99
    → n * 10 + (c - b'0') ≡ v
    → read_digits u16_max (c ∷ s) n ≡ read_digits u16_max s v
unfolding read_digits
read_digits-step c n v s h small e = ground arith

one-read : (a : ℕ) → IsDigit a → u16_from_str (a ∷ []) ≡ some (a - b'0')
unfolding read_digits
one-read a h =
    from_str-read_digits u16_max (a ∷ []) (h, tt) (cc)
    ∙ read_digits-step a 0 (a - b'0') [] h (omega arith) (omega arith)

two-read :
    (a b : ℕ)
    → IsDigit a
    → IsDigit b
    → u16_from_str (a ∷ b ∷ []) ≡ some ((a - b'0') * 10 + (b - b'0'))
unfolding read_digits
two-read a b h h' =
    from_str-read_digits u16_max (a ∷ b ∷ []) (h, (h', tt)) (cc)
    ∙ read_digits-step a 0 (a - b'0') (b ∷ []) h (omega arith) (omega arith)
    ∙ read_digits-step b (a - b'0') ((a - b'0') * 10 + (b - b'0')) [] h' (omega arith) refl

three-read :
    (a b c : ℕ)
    → IsDigit a
    → IsDigit b
    → IsDigit c
    → u16_from_str (a ∷ b ∷ c ∷ []) ≡ some (((a - b'0') * 10 + (b - b'0')) * 10 + (c - b'0'))
unfolding read_digits
three-read a b c h h' h'' =
    from_str-read_digits u16_max (a ∷ b ∷ c ∷ []) (h, (h', (h'', tt))) (cc)
    ∙ read_digits-step a 0 (a - b'0') (b ∷ c ∷ []) h (omega arith) (omega arith)
    ∙ read_digits-step b (a - b'0') ((a - b'0') * 10 + (b - b'0')) (c ∷ []) h' (omega arith) refl
    ∙ read_digits-step c ((a - b'0') * 10 + (b - b'0')) _ [] h'' (omega arith) refl

thousandths-weigh :
    (ds : Bytes)
    → All IsDigit ds
    → 0 < length ds
    → length ds ≤ 3
    → thousandths ds ≡ some (weigh 100 ds)
thousandths-weigh [] h more few = absurd (omega arith)
thousandths-weigh (a ∷ []) h more few = rw (one-read a h.0) (ap some (omega arith))
thousandths-weigh (a ∷ b ∷ []) h more few = rw (two-read a b h.0 h.1.0) (ap some (omega arith))
thousandths-weigh (a ∷ b ∷ c ∷ []) h more few =
    rw (three-read a b c h.0 h.1.0 h.1.1.0) (ap some (omega arith))
thousandths-weigh (a ∷ b ∷ c ∷ d ∷ ds) h more few = absurd (omega arith)

pub parse_qvalue-print_qvalue :
    (q : Qvalue) → IsQvalue q → parse_qvalue (print_qvalue q) ≡ some (value_of q)
unfolding parse_qvalue bytes_eq starts_with
parse_qvalue-print_qvalue zero_alone h = refl
parse_qvalue-print_qvalue (zero_point []) h = refl
parse_qvalue-print_qvalue (zero_point (c ∷ ds)) h = thousandths-weigh (c ∷ ds) h.0 (omega arith) h.1
parse_qvalue-print_qvalue one_alone h = refl
parse_qvalue-print_qvalue (one_point zero) h = refl
parse_qvalue-print_qvalue (one_point (suc zero)) h = refl
parse_qvalue-print_qvalue (one_point (suc (suc zero))) h = refl
parse_qvalue-print_qvalue (one_point (suc (suc (suc zero)))) h = refl
parse_qvalue-print_qvalue (one_point (suc (suc (suc (suc n))))) h = absurd (omega arith)
