-- ===== src/AccountingLedger/Lines.antt =====
-- ledger.ts: the lines of a text that grows at its end.
use ikimetr.Prelude.{
  ℕ, ◌≡◌, refl, sym, ap, ◌∙◌, arith, inl, inr, true, false, List, [], ◌∷◌, ◌++◌, nat_eq, nat_eq_iff,
  any-append, Text, Bool-cases,
}
use ikimetr.AccountingLedger.{newline, has_newline, ends_with_newline, drop_last, split_lines}

pub drop_last-append : (t : Text) (c : ℕ) → drop_last (t ++ c ∷ []) ≡ t
drop_last-append [] c = refl
drop_last-append (a ∷ []) c = refl
drop_last-append (a ∷ b ∷ t) c = ap (λ r. a ∷ r) (drop_last-append (b ∷ t) c)

pub ends_with_newline-append :
    (t : Text) (c : ℕ) (u : Text) → ends_with_newline (t ++ c ∷ u) ≡ ends_with_newline (c ∷ u)
ends_with_newline-append [] c u = refl
ends_with_newline-append (a ∷ []) c u = refl
ends_with_newline-append (a ∷ b ∷ t) c u = ends_with_newline-append (b ∷ t) c u

-- A text that ends with a newline is its slice and the newline.
pub drop_last-newline : (t : Text) → ends_with_newline t ≡ true → t ≡ drop_last t ++ newline ∷ []
drop_last-newline [] h = cc
drop_last-newline (c ∷ []) h = ap (λ x. x ∷ []) ((nat_eq_iff c newline).0 h)
drop_last-newline (c ∷ d ∷ t) h = ap (λ r. c ∷ r) (drop_last-newline (d ∷ t) h)

-- A text without a newline does not end with one.
pub ends_with_newline_none : (t : Text) → has_newline t ≡ false → ends_with_newline t ≡ false
ends_with_newline_none [] h = refl
ends_with_newline_none (c ∷ []) h = ground arith
ends_with_newline_none (c ∷ d ∷ t) h = ends_with_newline_none (d ∷ t) (ground arith)

drop_last-end : (t : Text) (c : ℕ) (u : Text) → drop_last (t ++ c ∷ u) ≡ t ++ drop_last (c ∷ u)
drop_last-end [] c u = refl
drop_last-end (a ∷ []) c u = refl
drop_last-end (a ∷ b ∷ t) c u = ap (λ r. a ∷ r) (drop_last-end (b ∷ t) c u)

-- A proper part of a line and its newline has no newline.
pub has_newline-part :
    (line w : Text) (c : ℕ) (u : Text)
    → line ++ newline ∷ [] ≡ w ++ c ∷ u
    → has_newline line ≡ false
    → has_newline w ≡ false
has_newline-part line w c u e h =
    let same : line ≡ w ++ drop_last (c ∷ u) =
      sym (drop_last-append line newline) ∙ ap drop_last e ∙ drop_last-end w c u in
    ground (arith, any-append (λ x. nat_eq x newline) w (drop_last (c ∷ u)), ap has_newline same, h)

pub split_lines-line : (t : Text) → has_newline t ≡ false → split_lines t ≡ t ∷ []
unfolding split_lines
split_lines-line [] h = refl
split_lines-line (c ∷ t) h =
    let other : nat_eq c newline ≡ false = ground arith in
    let rest : has_newline t ≡ false = ground arith in rw (other, split_lines-line t rest) refl

split_lines-cons : (t : Text) → (x : Text) × (xs : List Text) × (split_lines t ≡ x ∷ xs)
unfolding split_lines
split_lines-cons [] = ([], [], refl)
split_lines-cons (c ∷ t) =
    let (x, xs, e) = split_lines-cons t in
    elim (Bool-cases (nat_eq c newline)) [
      | inl h ↦ ([], split_lines t, rw (h) refl)
      | inr h ↦ (c ∷ x, xs, rw (h, e) refl)
    ]

-- A line after a newline is the last of the lines.
pub split_lines-append :
    (t line : Text)
    → has_newline line ≡ false
    → split_lines (t ++ newline ∷ line) ≡ split_lines t ++ line ∷ []
unfolding split_lines
split_lines-append [] line h = rw (split_lines-line line h) refl
split_lines-append (c ∷ t) line h =
    let (x, xs, e) = split_lines-cons t in
    elim (Bool-cases (nat_eq c newline)) [
      | inl q ↦ rw (q, split_lines-append t line h) refl
      | inr q ↦ rw (q, split_lines-append t line h, e) refl
    ]
