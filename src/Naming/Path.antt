-- ===== src/Naming/Path.antt =====
-- creusot/src/naming.rs: `ModulePath`, the path of an item, its Why3 module name and file name.
-- The compiler's `TyCtxt` is a parameter.
pub mod Join
pub mod Items
use mathlib.Core.List.{reverse}
use creusot.Prelude.{
  ℕ, zero, suc, ◌<◌, Bool, true, false, List, [], ◌∷◌, ◌++◌, Option, none, some, ◌≡◌, refl, map,
  if◌then◌else◌, arith,
}
use creusot.Prelude.Decimal.{Text, codes, decimal}
use creusot.Naming.{translate_name}

pub record ModulePath : Type 0 where
  pub path : List Text
  pub basename : Text

unfoldable pub add_suffix : ModulePath → Text → ModulePath
add_suffix m suffix = record m { basename = m.basename ++ suffix }

-- The loop of `why3_ident`.
why3_ident_loop : List Text → Text → Text
why3_ident_loop [] path = path
why3_ident_loop (m ∷ ms) path = why3_ident_loop ms ((path ++ m) ++ codes "__")

unfoldable pub why3_ident : ModulePath → Text
unfolding why3_ident_loop
why3_ident m = why3_ident_loop m.path (codes "M_") ++ m.basename

-- The components that are pushed on the `PathBuf`.
unfoldable pub file_name : ModulePath → List Text → List Text
file_name m prefix = (prefix ++ m.path) ++ ((codes "M_" ++ m.basename) ++ codes ".coma") ∷ []

-- `DefKey`: the index of the parent, and the data of the last path segment.
pub record DefKey (D : Type 0) : Type 0 where
  pub parent : Option ℕ
  pub last : D

-- What the compiler is asked for. A definition's index is above its parent's.
pub record Tcx : Type 1 where
  pub DefPathData : Type 0
  pub is_impl : DefPathData → Bool
  pub render : DefPathData → Text
  pub crate_name : ℕ → Text
  pub def_key : ℕ → ℕ → DefKey DefPathData
  pub impl_hash : ℕ → ℕ → ℕ
  pub parent_lt : (krate index p : ℕ) → (def_key krate index).parent ≡ some p → p < index

pub data Segment (D : Type 0) : Type 0 where
  impl : ℕ → Segment D
  other : D → Segment D

module _ (tcx : Tcx) where
  open tcx use {DefPathData, is_impl, render, crate_name, def_key, impl_hash}

  -- The segment that one round of the loop pushes.
  unfoldable pub segment_at : ℕ → ℕ → Segment DefPathData
  segment_at krate index =
      if is_impl (def_key krate index).last
      then impl (impl_hash krate index)
      else other (def_key krate index).last

  -- The loop of `ident_path_segments_`, with fuel; `none` means that the fuel ran out.
  pub segments_loop : ℕ → ℕ → ℕ → List (Segment DefPathData) → Option (List (Segment DefPathData))
  segments_loop zero krate index segs = none
  segments_loop (suc f) krate index segs = elim (def_key krate index).parent [
    | none ↦ some segs
    | some p ↦ segments_loop f krate p (segs ++ segment_at krate index ∷ [])
  ]

  unfoldable pub ident_path_segments_ : ℕ → ℕ → Option (List (Segment DefPathData))
  unfolding segments_loop
  ident_path_segments_ krate index = elim (segments_loop (suc index) krate index []) [
    | none ↦ none
    | some segs ↦ some (reverse segs)
  ]

  unfoldable pub segment_name : Segment DefPathData → Text
  segment_name (impl hash) = codes "qyi" ++ decimal hash
  segment_name (other d) = translate_name (render d)

  unfoldable pub ident_path_segments : ℕ → ℕ → Option (List Text)
  ident_path_segments krate index = elim (ident_path_segments_ krate index) [
    | none ↦ none
    | some segs ↦ some (translate_name (crate_name krate) ∷ map segment_name segs)
  ]

-- `Vec::pop`: the items before the last one, and the last one.
pop_cons {ℓ} : {A : Type ℓ} → A → List A → List A × A
pop_cons x [] = ([], x)
pop_cons x (y ∷ ys) = (x ∷ (pop_cons y ys).0, (pop_cons y ys).1)

unfoldable pub pop {ℓ} : {A : Type ℓ} → List A → Option (List A × A)
unfolding pop_cons
pop [] = none
pop (x ∷ xs) = some (pop_cons x xs)

-- `ModulePath::new`; `none` stands for the `unwrap` of an empty path.
unfoldable pub new : Tcx → ℕ → ℕ → Option ModulePath
new tcx krate index = elim (ident_path_segments tcx krate index) [
  | none ↦ none
  | some names ↦ elim (pop names) [
    | none ↦ none
    | some popped ↦ some (record { path = popped.0; basename = popped.1 })
  ]
]
