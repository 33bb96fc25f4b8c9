-- ===== src/Why3/Scope/Reach.antt =====
-- why3/src/printer.rs: the scopes that `open`, `close` and `bind` reach, and the names in them.
use mathlib.Core.List.{cons-ne-nil}
use mathlib.Core.Path.{subst}
use creusot.Prelude.{
  false, List, [], ◌∷◌, ◌++◌, Option, none, some, ◌≡◌, ◌≢◌, refl, sym, ap, ◌∙◌, Option-cases, inl,
  inr, some_eq, defined,
}
use creusot.Prelude.Decimal.{Text}
use creusot.Why3.Name.{Ident, is_reserved}
use creusot.Why3.Scope.{
  Scope, Renaming, Frame, set, new, open_scope, close, bind, get, close_with, undo_one, undo_all,
  bind_with,
}
use creusot.Why3.Scope.Fresh.{find_symbol_lem}
use creusot.Why3.Scope.Undo.{bind-some, set_back, set_self, remove_found, undo_all_cons}
use creusot.Why3.Scope.Distinct.{History, IsConsistent, entries, History-bound, History-injective}

pub data Op : Type 0 where
  open_op close_op : Op
  bind_op : Ident → Op

pub step : Op → Scope → Option Scope
step open_op s = some (open_scope s)
step close_op s = close s
step (bind_op ident) s = bind ident s

-- The operations in order; `none` is a panic of one of them.
unfoldable pub run : List Op → Scope → Option Scope
unfolding step
run [] s = some s
run (op ∷ ops) s = elim (step op s) [ none ↦ none | some t ↦ run ops t ]

run_cons :
    (op : Op) (ops : List Op) (s t : Scope) → step op s ≡ some t → run (op ∷ ops) s ≡ run ops t
unfolding run
run_cons op ops s t e = rw (e, run)

bind-closed :
    (ident : Ident) (r : Renaming) (b : List Text)
    → bind ident (record { rename = r; bound = b; undo = [] }) ≡ none
unfolding bind bind_with
bind-closed ident r b = rw ((find_symbol_lem b ident.name).1)

bind-History :
    (ident : Ident) (r : Renaming) (b : List Text) (undo : List Frame) {t : Scope}
    → bind ident (record { rename = r; bound = b; undo = undo }) ≡ some t
    → History r b (entries undo)
    → IsConsistent t
bind-History ident r b [] e h = absurd (cc (bind-closed ident r b))
bind-History ident r b (frame ∷ undo) {t} e h =
    let (found, fresh, word, done) = bind-some ident r b frame undo in
    let result : Scope = record {
      rename = set r ident (some found);
      bound = found ∷ b;
      undo = ((ident, r ident) ∷ frame) ∷ undo;
    } in
    let same : result ≡ t = some_eq (sym done ∙ e) in
    rw (← same) (
      found,
      b,
      refl,
      fresh,
      word,
      set_self r ident (some found),
      rw (set_back r ident (some found)) h,
    )

undo_one-History :
    (entry : Ident × Option Text) (r : Renaming) (b : List Text) (es : Frame)
    → History r b (entry ∷ es)
    → (before : List Text) × (undo_one entry (r, b) ≡ some (set r entry.0 entry.1, before))
      × History (set r entry.0 entry.1) before es
unfolding undo_one
undo_one-History (ident, old) r b es (s, before, eb, fresh, word, es', rest) =
    (before, rw (es', undo_one) (rw (eb, remove_found before s fresh)), rest)

undo_all-History :
    (frame : Frame) (r : Renaming) (b : List Text) (es : Frame)
    → History r b (frame ++ es)
    → (maps : Renaming × List Text) × (undo_all frame (r, b) ≡ some maps) × History maps.0 maps.1 es
undo_all-History [] r b es h = ((r, b), unfold undo_all in refl, h)
undo_all-History (entry ∷ frame) r b es h =
    let (before, one, rest) = undo_one-History entry r b (frame ++ es) h in
    let (maps, all, rest') = undo_all-History frame (set r entry.0 entry.1) before es rest in
    (maps, undo_all_cons entry frame (r, b) _ one ∙ all, rest')

close-History :
    (r : Renaming) (b : List Text) (undo : List Frame)
    → undo ≢ []
    → History r b (entries undo)
    → (t : Scope) × (close (record { rename = r; bound = b; undo = undo }) ≡ some t)
      × IsConsistent t
unfolding close close_with
close-History r b [] n h = absurd (n refl)
close-History r b (frame ∷ undo) n h =
    let (maps, all, rest) = undo_all-History frame r b (entries undo) h in
    (record { rename = maps.0; bound = maps.1; undo = undo }, rw (all, close_with), rest)

close-closed :
    (r : Renaming) (b : List Text) → close (record { rename = r; bound = b; undo = [] }) ≡ none
unfolding close close_with
close-closed r b = refl

close-IsConsistent :
    (r : Renaming) (b : List Text) (undo : List Frame) {t : Scope}
    → close (record { rename = r; bound = b; undo = undo }) ≡ some t
    → History r b (entries undo)
    → IsConsistent t
close-IsConsistent r b [] e h = absurd (cc (close-closed r b))
close-IsConsistent r b (frame ∷ undo) e h =
    let (t', run', h') = close-History r b (frame ∷ undo) (cons-ne-nil frame undo) h in
    subst IsConsistent (some_eq (sym run' ∙ e)) h'

step-IsConsistent :
    (op : Op) (s : Scope) {t : Scope} → step op s ≡ some t → IsConsistent s → IsConsistent t
unfolding step
step-IsConsistent open_op s e h = subst IsConsistent (some_eq e) (unfold open_scope in h)
step-IsConsistent close_op s e h = close-IsConsistent s.rename s.bound s.undo e h
step-IsConsistent (bind_op ident) s e h = bind-History ident s.rename s.bound s.undo e h

run-IsConsistent :
    (ops : List Op) (s : Scope) {t : Scope} → run ops s ≡ some t → IsConsistent s → IsConsistent t
unfolding run
run-IsConsistent [] s e h = subst IsConsistent (some_eq e) h
run-IsConsistent (op ∷ ops) s {t} e h = elim (Option-cases (step op s)) [
  | inl stuck ↦ absurd (cc (rw (stuck, run) at e))
  | inr next ↦
      run-IsConsistent ops next.0 (sym (run_cons op ops s next.0 next.1) ∙ e)
        (step-IsConsistent op s next.1 h)
]

new-IsConsistent : IsConsistent new
unfolding new
new-IsConsistent = (refl, refl)

-- After any operations from a new scope that did not panic, two different identifiers in scope are
-- printed by different names, and the name of an identifier in scope is no Why3 keyword.
pub get-ne :
    (ops : List Op) (s : Scope) (i j : Ident)
    → run ops new ≡ some s
    → s.rename i ≢ none
    → s.rename j ≢ none
    → i ≢ j
    → (get s i ≢ get s j) × (is_reserved (get s i) ≡ false)
unfolding get
get-ne ops s i j e hi hj n =
    let h = run-IsConsistent ops new e new-IsConsistent in
    let (a, ea) = defined (s.rename i) hi in
    let (b, eb) = defined (s.rename j) hj in
    (
      rw (ea, eb, get)
          (λ q. n (
            History-injective s.rename s.bound (entries s.undo) i j a h ea (eb ∙ ap some (sym q)))),
      rw (ea, get) ((History-bound s.rename s.bound (entries s.undo) i a h ea).1),
    )

-- After any operations from a new scope that did not panic, while a scope is open, neither binding
-- an identifier nor closing the scope panics.
pub run_progress :
    (ops : List Op) (s : Scope) (ident : Ident)
    → run ops new ≡ some s
    → s.undo ≢ []
    → ((t : Scope) × (bind ident s ≡ some t)) × ((t : Scope) × (close s ≡ some t))
run_progress ops s ident e n =
    let h = run-IsConsistent ops new e new-IsConsistent in
    let (t, done, _) = close-History s.rename s.bound s.undo n h in (bind_open s.undo n, (t, done))
  where
    bind_open :
        (undo : List Frame)
        → undo ≢ []
        → (t : Scope) × (bind ident (record s { undo = undo }) ≡ some t)
    bind_open [] n = absurd (n refl)
    bind_open (frame ∷ undo) n =
        let (found, fresh, word, done) = bind-some ident s.rename s.bound frame undo in (_, done)
