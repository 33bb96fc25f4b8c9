-- ===== src/Why3/Scope/Distinct.antt =====
-- why3/src/printer.rs: in every scope that the operations reach, identifiers in scope are printed by
-- different names, none is a keyword, and `close` does not panic while a scope is open.
use creusot.Prelude.{
  true, false, List, [], ◌∷◌, ◌++◌, Option, none, some, ◌≡◌, ap, ◌∙◌, arith, Bool-cases, inl, inr,
}
use creusot.Prelude.Decimal.{Text}
use creusot.Prelude.Texts.{contains, text_eq_iff}
use creusot.Why3.Name.{Ident, ident_eq, is_reserved}
use creusot.Why3.Name.Laws.{ident_eq_iff}
use creusot.Why3.Scope.{Scope, Renaming, Frame, set}

-- The maps come from binding, one by one, what the entries say, each with a symbol that was free.
abbrev pub History : Renaming → List Text → Frame → Type 0
History r b [] = (r ≡ (λ _. none)) × (b ≡ [])
History r b ((ident, old) ∷ es) =
    (s : Text) × (before : List Text) × (b ≡ s ∷ before)
    × (contains before s ≡ false)
    × (is_reserved s ≡ false)
    × (r ident ≡ some s)
    × History (set r ident old) before es

abbrev pub entries : List Frame → Frame
entries [] = []
entries (frame ∷ undo) = frame ++ entries undo

abbrev pub IsConsistent : Scope → Type 0
IsConsistent s = History s.rename s.bound (entries s.undo)

set_other :
    (r : Renaming) (ident i : Ident) (v : Option Text)
    → ident_eq ident i ≡ false
    → set r ident v i ≡ r i
unfolding set
set_other r ident i v h = rw h

same_symbol :
    (r : Renaming) (ident i : Ident) {s t : Text}
    → ident_eq ident i ≡ true
    → r ident ≡ some t
    → r i ≡ some s
    → s ≡ t
same_symbol r ident i h et e = cc (ap r ((ident_eq_iff ident i).0 h))

-- A name in scope is in the set of used symbols and is no keyword.
pub History-bound :
    (r : Renaming) (b : List Text) (es : Frame) (i : Ident) (s : Text)
    → History r b es
    → r i ≡ some s
    → (contains b s ≡ true) × (is_reserved s ≡ false)
unfolding contains
History-bound r b [] i s h e = absurd (cc (ap (λ (f : Renaming). f i) h.0))
History-bound r b ((ident, old) ∷ es) i s (t, before, eb, fresh, word, et, rest) e =
    elim (Bool-cases (ident_eq ident i)) [
      | inl same ↦ ground (arith, same_symbol r ident i same et e, text_eq_iff t s)
      | inr other ↦ ground (
        arith,
        History-bound (set r ident old) before es i s rest (set_other r ident i old other ∙ e),
      )
    ]

-- One symbol names one identifier.
pub History-injective :
    (r : Renaming) (b : List Text) (es : Frame) (i j : Ident) (s : Text)
    → History r b es
    → r i ≡ some s
    → r j ≡ some s
    → i ≡ j
History-injective r b [] i j s h e k = absurd (cc (ap (λ (f : Renaming). f i) h.0))
History-injective r b ((ident, old) ∷ es) i j s (t, before, eb, fresh, word, et, rest) e k =
    let back = set r ident old in
    let kept : (x : Ident) → ident_eq ident x ≡ false → r x ≡ some s → back x ≡ some s =
      λ x h q. set_other r ident x old h ∙ q in
    elim (Bool-cases (ident_eq ident i)) [
      | inl a ↦ elim (Bool-cases (ident_eq ident j)) [
        | inl c ↦ cc ((ident_eq_iff ident i).0 a, (ident_eq_iff ident j).0 c)
        | inr d ↦ absurd (
            cc (
              (History-bound back before es j s rest (kept j d k)).0,
              same_symbol r ident i a et e,
              fresh,
            ))
      ]
      | inr c ↦ elim (Bool-cases (ident_eq ident j)) [
        | inl d ↦ absurd (
            cc (
              (History-bound back before es i s rest (kept i c e)).0,
              same_symbol r ident j d et k,
              fresh,
            ))
        | inr d ↦ History-injective back before es i j s rest (kept i c e) (kept j d k)
      ]
    ]
