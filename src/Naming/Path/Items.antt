-- ===== src/Naming/Path/Items.antt =====
-- creusot/src/naming.rs: the segments of an item's path, from the crate to the item.
use mathlib.Core.List.{reverse, reverse-append, head-eq_of_cons-eq, tail-eq_of_cons-eq}
use creusot.Prelude.{
  ℕ, zero, suc, ◌+◌, ◌-◌, ◌*◌, ◌<◌, List, [], ◌∷◌, ◌++◌, none, some, ◌≡◌, ◌≢◌, ◌⊎◌, refl, sym, ap,
  ap₂, ◌∙◌, arith, All, All-front, All-back, append_assoc, append-nil, Option-cases, inl, inr, map,
}
use creusot.Prelude.Decimal.{Text, codes, decimal, decimal-injective, decimal-IsDigit, IsDigit}
use creusot.Naming.{translate_name}
use creusot.Naming.Decode.{
  translate_name-injective, translate_name-nil, decode, decode-translate_name, decode_from,
  decode_step, number,
}
use creusot.Naming.Path.Join.{IsWritten, why3_ident-injective}
use creusot.Naming.Shape.{IsFragment, translate_name-IsFragment, digits-IsWordChar, digits-IsSpaced}
use creusot.Naming.Path.{
  Tcx, Segment, impl, other, segments_loop, segment_at, ident_path_segments_, segment_name,
  ident_path_segments, new, pop, pop_cons, ModulePath, why3_ident,
}

-- The segments from the crate's root, which has none, down to an item.
pub data Descends (tcx : Tcx) (krate : ℕ) : ℕ → List (Segment tcx.DefPathData) → Type 0 where
  root : {index : ℕ} → (tcx.def_key krate index).parent ≡ none → Descends tcx krate index []
  under :
      {index p : ℕ} {segs : List (Segment tcx.DefPathData)}
      → (tcx.def_key krate index).parent ≡ some p
      → Descends tcx krate p segs
      → Descends tcx krate index (segs ++ segment_at tcx krate index ∷ [])

module _ (tcx : Tcx) where
  -- With fuel above the index, the loop ends, and adds what it finds behind the segments so far.
  segments_loop-total :
      (f krate index : ℕ)
      → index < f
      → (found : List (Segment tcx.DefPathData)) × ((segs : List (Segment tcx.DefPathData))
          → segments_loop tcx f krate index segs ≡ some (segs ++ found))
        × Descends tcx krate index (reverse found)
  unfolding segments_loop
  segments_loop-total zero krate index h = absurd (omega arith)
  segments_loop-total (suc f) krate index h = elim (Option-cases (tcx.def_key krate index).parent) [
    | inl e ↦ ([], (λ segs. rw (e, segments_loop) (ap some (sym (append-nil segs)))), root e)
    | inr above ↦
        let lower = tcx.parent_lt krate index above.0 above.1 in
        let (found, run, tree) = segments_loop-total f krate above.0 (omega arith) in
        (
          segment_at tcx krate index ∷ found,
          (λ segs.
              rw (above.1, segments_loop)
                (run (segs ++ segment_at tcx krate index ∷ [])
                  ∙ ap some (append_assoc segs _ found))),
          rw (reverse-append (segment_at tcx krate index ∷ []) found) (under above.1 tree),
        )
  ]

  -- The segments of every item are found, and they lead from the crate's root down to it.
  pub ident_path_segments_-Descends :
      (krate index : ℕ)
      → (segs : List (Segment tcx.DefPathData)) × (ident_path_segments_ tcx krate index ≡ some segs)
        × Descends tcx krate index segs
  unfolding ident_path_segments_
  ident_path_segments_-Descends krate index =
      let (found, run, tree) = segments_loop-total (suc index) krate index (omega arith) in
      (reverse found, rw (run [], ident_path_segments_), tree)

  -- The name of a segment tells the hash of an impl from a rendered path part, and which it is.
  abbrev pub key : Segment tcx.DefPathData → ℕ ⊎ Text
  key (impl hash) = inl hash
  key (other d) = inr (tcx.render d)

  segment_name-IsFragment : (s : Segment tcx.DefPathData) → IsFragment (segment_name tcx s)
  unfolding segment_name
  segment_name-IsFragment (impl hash) = record {
    starts = refl;
    spaced = (
      refl,
      (
        refl,
        (
          refl,
          rw (← append-nil (decimal hash))
              (digits-IsSpaced (decimal hash) [] (decimal-IsDigit hash) tt),
        ),
      ),
    );
    word = (refl, (refl, (refl, digits-IsWordChar (decimal hash) (decimal-IsDigit hash))));
  }
  segment_name-IsFragment (other d) = translate_name-IsFragment (tcx.render d)

decode-digits : (k : ℕ) (ds : Text) → All IsDigit ds → decode_from (number k) ds ≡ []
unfolding decode_from decode_step
decode-digits k [] h = refl
decode-digits k (d ∷ ds) h = ground (arith, decode-digits (k * 10 + (d - b'0')) ds)

-- No translated name is the name of an impl.
impl-ne-translate_name : (hash : ℕ) (t : Text) → codes "qyi" ++ decimal hash ≢ translate_name t
unfolding decode decode_from decode_step
impl-ne-translate_name hash t e =
    let empty : t ≡ [] =
      sym (decode-translate_name t)
      ∙ ap decode (sym e)
      ∙ decode-digits _ (decimal hash) (decimal-IsDigit hash) in
    cc (e, ap translate_name empty, translate_name-nil)

pop_cons-append {ℓ} :
    {A : Type ℓ} (x : A) (xs : List A) → (pop_cons x xs).0 ++ (pop_cons x xs).1 ∷ [] ≡ x ∷ xs
unfolding pop_cons
pop_cons-append x [] = refl
pop_cons-append x (y ∷ ys) = ap (λ r. x ∷ r) (pop_cons-append y ys)

module _ (tcx : Tcx) where
  segment_name-key :
      (a b : Segment tcx.DefPathData)
      → segment_name tcx a ≡ segment_name tcx b
      → key tcx a ≡ key tcx b
  unfolding segment_name
  segment_name-key (impl g) (impl h) e = ap inl (decimal-injective g h (ground arith))
  segment_name-key (impl g) (other d) e = absurd (impl-ne-translate_name g (tcx.render d) e)
  segment_name-key (other c) (impl h) e = absurd (impl-ne-translate_name h (tcx.render c) (sym e))
  segment_name-key (other c) (other d) e =
      ap inr (translate_name-injective (tcx.render c) (tcx.render d) e)

  map-segment_name :
      (ss ts : List (Segment tcx.DefPathData))
      → map (segment_name tcx) ss ≡ map (segment_name tcx) ts
      → map (key tcx) ss ≡ map (key tcx) ts
  map-segment_name [] [] e = refl
  map-segment_name [] (t ∷ ts) e = cc
  map-segment_name (s ∷ ss) [] e = cc
  map-segment_name (s ∷ ss) (t ∷ ts) e =
      ap₂ (λ x xs. x ∷ xs) (segment_name-key s t (head-eq_of_cons-eq e))
        (map-segment_name ss ts (tail-eq_of_cons-eq e))

  names-All : (segs : List (Segment tcx.DefPathData)) → All IsFragment (map (segment_name tcx) segs)
  names-All [] = tt
  names-All (s ∷ segs) = (segment_name-IsFragment tcx s, names-All segs)

  -- The path that `new` builds for known segments.
  built : ℕ → List (Segment tcx.DefPathData) → ModulePath
  built krate segs =
      let popped = pop_cons (translate_name (tcx.crate_name krate)) (map (segment_name tcx) segs) in
      record { path = popped.0; basename = popped.1 }

  -- `new` succeeds for every item, and the parts of the path are its crate and its segments.
  pub new-total :
      (krate index : ℕ)
      → (segs : List (Segment tcx.DefPathData)) × (m : ModulePath) × (ident_path_segments_ tcx krate
            index
          ≡ some segs)
        × (new tcx krate index ≡ some m)
        × (m.path ++ m.basename ∷ []
            ≡ translate_name (tcx.crate_name krate) ∷ map (segment_name tcx) segs)
  unfolding new pop ident_path_segments built
  new-total krate index =
      let (segs, found, tree) = ident_path_segments_-Descends tcx krate index in
      (
        segs,
        built krate segs,
        found,
        rw (found, new, ident_path_segments),
        pop_cons-append (translate_name (tcx.crate_name krate)) (map (segment_name tcx) segs),
      )

  names-IsWritten :
      (m : ModulePath) {n : Text} {names : List Text}
      → All IsFragment (n ∷ names)
      → m.path ++ m.basename ∷ [] ≡ n ∷ names
      → IsWritten m
  names-IsWritten m h e =
      let parts : All IsFragment (m.path ++ m.basename ∷ []) = rw e h in
      record {
        parts = All-front IsFragment m.path _ parts;
        base = (All-back IsFragment m.path _ parts).0;
      }

  -- Items whose modules have one Why3 name have the same crate name and the same segments: hashes are
  -- equal, and the compiler renders the other segments alike.
  pub why3_ident-new :
      (k i l j : ℕ) {m n : ModulePath} {ss ts : List (Segment tcx.DefPathData)}
      → new tcx k i ≡ some m
      → new tcx l j ≡ some n
      → ident_path_segments_ tcx k i ≡ some ss
      → ident_path_segments_ tcx l j ≡ some ts
      → why3_ident m ≡ why3_ident n
      → (tcx.crate_name k ≡ tcx.crate_name l) × (map (key tcx) ss ≡ map (key tcx) ts)
  why3_ident-new k i l j {m} {n} {ss} {ts} em en es et e =
      let (ss', m', fs, fm, parts) = new-total k i in
      let (ts', n', ft, fn, parts') = new-total l j in
      let wm = names-IsWritten m' (translate_name-IsFragment _, names-All ss') parts in
      let wn = names-IsWritten n' (translate_name-IsFragment _, names-All ts') parts' in
      let same : m' ≡ n' = why3_ident-injective m' n' wm wn (ground (arith)) in
      let names : translate_name (tcx.crate_name k) ∷ map (segment_name tcx) ss'
          ≡ translate_name (tcx.crate_name l) ∷ map (segment_name tcx) ts' =
        sym parts ∙ ap (λ p. p.path ++ p.basename ∷ []) same ∙ parts' in
      let us : ss' ≡ ss = ground arith in
      let vs : ts' ≡ ts = ground arith in
      (
        translate_name-injective _ _ (head-eq_of_cons-eq names),
        rw (← us, ← vs) (map-segment_name ss' ts' (tail-eq_of_cons-eq names)),
      )
