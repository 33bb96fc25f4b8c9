-- ===== src/Why3/Scope/Undo.antt =====
-- why3/src/printer.rs: `Scope::close` undoes exactly what was bound since the scope was opened, and
-- identifiers in scope are printed by different names.
use creusot.Prelude.{false, List, [], ◌∷◌, Option, none, some, ◌≡◌, refl, ◌∙◌, Bool-cases, inl, inr}
use mathlib.Core.Path.{fun_ext}
use creusot.Prelude.Decimal.{Text}
use creusot.Prelude.Texts.{contains, remove, remove_absent, text_eq_self}
use creusot.Why3.Name.{Ident, ident_eq, is_reserved}
use creusot.Why3.Name.Laws.{ident_eq_iff}
use creusot.Why3.Scope.{
  Scope, Renaming, Frame, set, open_scope, close, bind, bind_with, close_with, undo_one, undo_all,
}
use creusot.Why3.Scope.Fresh.{find_symbol_lem}

pub set_back :
    (r : Renaming) (ident : Ident) (v : Option Text) → set (set r ident v) ident (r ident) ≡ r
set_back r ident v = fun_ext (λ j. at j)
  where
    at : (j : Ident) → set (set r ident v) ident (r ident) j ≡ r j
    at j =
        unfold set in
        elim (Bool-cases (ident_eq ident j)) [
          | inl e ↦ rw (e, (ident_eq_iff ident j).0 e)
          | inr e ↦ rw e
        ]

pub set_self : (r : Renaming) (ident : Ident) (v : Option Text) → set r ident v ident ≡ v
unfolding set
set_self r ident v = rw ((ident_eq_iff ident ident).1 refl)

-- One `bind`: where a scope is open it succeeds, with a new symbol that is no keyword.
pub bind-some :
    (ident : Ident) (r : Renaming) (b : List Text) (frame : Frame) (undo : List Frame)
    → (found : Text) × (contains b found ≡ false)
      × (is_reserved found ≡ false)
      × (bind ident (record { rename = r; bound = b; undo = frame ∷ undo })
          ≡ some (record {
            rename = set r ident (some found);
            bound = found ∷ b;
            undo = ((ident, r ident) ∷ frame) ∷ undo;
          }))
unfolding bind bind_with
bind-some ident r b frame undo =
    let (found, run, fresh, word) = find_symbol_lem b ident.name in (found, fresh, word, rw run)

pub remove_found : (b : List Text) (s : Text) → contains b s ≡ false → remove (s ∷ b) s ≡ b
unfolding remove
remove_found b s h = rw (text_eq_self s) (remove_absent b s h)

-- Undoing a bind gives the maps before it back.
undo_one-bind :
    (ident : Ident) (r : Renaming) (b : List Text) (found : Text)
    → contains b found ≡ false
    → undo_one (ident, r ident) (set r ident (some found), found ∷ b) ≡ some (r, b)
unfolding undo_one
undo_one-bind ident r b found h =
    rw (set_self r ident (some found), undo_one)
      (rw (set_back r ident (some found), remove_found b found h))

-- Binds each identifier in turn, as the printers do between `open` and `close`.
unfoldable pub bind_all : List Ident → Scope → Option Scope
bind_all [] s = some s
bind_all (i ∷ ids) s = elim (bind i s) [ none ↦ none | some t ↦ bind_all ids t ]

bind_all_cons :
    (i : Ident) (ids : List Ident) (s t : Scope)
    → bind i s ≡ some t
    → bind_all (i ∷ ids) s ≡ bind_all ids t
unfolding bind_all
bind_all_cons i ids s t e = rw (e, bind_all)

pub undo_all_cons :
    (entry : Ident × Option Text) (frame : Frame) (maps maps' : Renaming × List Text)
    → undo_one entry maps ≡ some maps'
    → undo_all (entry ∷ frame) maps ≡ undo_all frame maps'
unfolding undo_all
undo_all_cons entry frame maps maps' e = rw (e, undo_all)

-- What was bound in the innermost scope is undone entry by entry.
bind_all-undo :
    (ids : List Ident) (r : Renaming) (b : List Text) (frame : Frame) (undo : List Frame)
    → (t : Scope) × (frame' : Frame) × (bind_all ids
          (record { rename = r; bound = b; undo = frame ∷ undo })
        ≡ some t)
      × (t.undo ≡ frame' ∷ undo)
      × (undo_all frame' (t.rename, t.bound) ≡ undo_all frame (r, b))
bind_all-undo [] r b frame undo = (
  record { rename = r; bound = b; undo = frame ∷ undo },
  frame,
  unfold bind_all in refl,
  refl,
  refl,
)
bind_all-undo (i ∷ ids) r b frame undo =
    let (found, fresh, word, step) = bind-some i r b frame undo in
    let (t, frame', run, shape, back) =
      bind_all-undo ids (set r i (some found)) (found ∷ b) ((i, r i) ∷ frame) undo in
    (
      t,
      frame',
      bind_all_cons i ids _ _ step ∙ run,
      shape,
      back ∙ undo_all_cons (i, r i) frame _ _ (undo_one-bind i r b found fresh),
    )

close_of_undo :
    (t : Scope) (frame : Frame) (s : Scope)
    → t.undo ≡ frame ∷ s.undo
    → undo_all frame (t.rename, t.bound) ≡ some (s.rename, s.bound)
    → close t ≡ some s
unfolding close
close_of_undo t frame s e u = rw (e, close_with) (rw u)

-- Opening a scope, binding any identifiers in it (also one that is in scope already) and closing it
-- succeeds, and gives the scope before it back: the same names, the same set of used symbols and the
-- same undo stack.
pub close-bind_all-open_scope :
    (ids : List Ident) (s : Scope)
    → (t : Scope) × (bind_all ids (open_scope s) ≡ some t) × (close t ≡ some s)
unfolding open_scope
close-bind_all-open_scope ids s =
    let (t, frame, run, shape, back) = bind_all-undo ids s.rename s.bound [] s.undo in
    (t, run, close_of_undo t frame s shape (back ∙ unfold undo_all in refl))
