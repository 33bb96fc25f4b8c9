-- ===== src/Why3/Name/Qualified/RoundTrip.antt =====
-- why3/src/name.rs: `QName::parse` reads back what `QName::to_string` writes.
use mathlib.Core.List.{reverse, reverse-append, reverse-reverse}
use creusot.Prelude.{
  true, false, List, [], ◌∷◌, ◌++◌, ◌≡◌, ◌≢◌, refl, sym, ap, ◌∙◌, arith, All, All-append,
  append_assoc, append-nil,
}
use creusot.Prelude.Decimal.{Text}
use creusot.Why3.Name.{QName}
use creusot.Why3.Name.Qualified.{to_string, to_string_loop, parse, parse_loop, split_dots}

-- No dot and no parenthesis.
abbrev pub IsPlain : Text → Type 0
IsPlain = All (λ c. (c ≢ b'.') × (c ≢ b'(') × (c ≢ b')'))

abbrev pub NoDot : Text → Type 0
NoDot = All (λ c. c ≢ b'.')

abbrev pub NoParen : Text → Type 0
NoParen = All (λ c. (c ≢ b'(') × (c ≢ b')'))

-- An ordinary name, or an operator between parentheses.
pub data IsQName : Text → Type 0 where
  plain : {s : Text} → IsPlain s → IsQName s
  operator : {s : Text} (op : Text) → NoParen op → s ≡ b'(' ∷ op ++ b')' ∷ [] → IsQName s

-- The text that stands before the name.
prefixed : List Text → Text
prefixed [] = []
prefixed (m ∷ ms) = m ++ b'.' ∷ prefixed ms

to_string-prefixed : (ms : List Text) (s : Text) → to_string_loop ms s ≡ s ++ prefixed ms
unfolding to_string_loop prefixed
to_string-prefixed [] s = sym (append-nil s)
to_string-prefixed (m ∷ ms) s = simp (to_string-prefixed ms, append_assoc)

-- Scanning a name from the right leaves the loop at the character before it, outside parentheses.
parse_loop-plain :
    (rev left behind : Text)
    → IsPlain rev
    → parse_loop (rev ++ left) behind false ≡ parse_loop left (reverse rev ++ behind) false
unfolding parse_loop
parse_loop-plain [] left behind h = refl
parse_loop-plain (c ∷ rev) left behind h = ground (
  arith,
  parse_loop-plain rev left (c ∷ behind) h.1,
  reverse-append (c ∷ []) rev,
  append_assoc (reverse rev) (c ∷ []) behind,
)

parse_loop-op :
    (rev left behind : Text)
    → NoParen rev
    → parse_loop (rev ++ left) behind true ≡ parse_loop left (reverse rev ++ behind) true
unfolding parse_loop
parse_loop-op [] left behind h = refl
parse_loop-op (c ∷ rev) left behind h = ground (
  arith,
  parse_loop-op rev left (c ∷ behind) h.1,
  reverse-append (c ∷ []) rev,
  append_assoc (reverse rev) (c ∷ []) behind,
)

All-reverse {ℓ κ} : {A : Type ℓ} (P : A → Type κ) (xs : List A) → All P xs → All P (reverse xs)
All-reverse P [] h = tt
All-reverse P (x ∷ xs) h =
    rw (reverse-append (x ∷ []) xs)
      (All-append P (reverse xs) (x ∷ []) (All-reverse P xs h.1) (h.0, tt))

reverse-operator : (op : Text) → reverse (b'(' ∷ op ++ b')' ∷ []) ≡ b')' ∷ reverse op ++ b'(' ∷ []
reverse-operator op =
    reverse-append (b'(' ∷ op) (b')' ∷ []) ∙ ap (λ r. b')' ∷ r) (reverse-append (b'(' ∷ []) op)

parse_loop-operator :
    (op left : Text)
    → NoParen op
    → parse_loop (reverse (b'(' ∷ op ++ b')' ∷ []) ++ left) [] false
      ≡ parse_loop left (b'(' ∷ op ++ b')' ∷ []) false
unfolding parse_loop
parse_loop-operator op left h =
    ap (λ r. parse_loop (r ++ left) [] false) (reverse-operator op)
    ∙ ap (λ r. parse_loop r (b')' ∷ []) true) (append_assoc (reverse op) (b'(' ∷ []) left)
    ∙ parse_loop-op (reverse op) (b'(' ∷ left) (b')' ∷ []) (All-reverse _ op h)
    ∙ ap (λ r. parse_loop left (b'(' ∷ r ++ b')' ∷ []) false) (reverse-reverse op)

parse_loop-name :
    (name left : Text)
    → IsQName name
    → parse_loop (reverse name ++ left) [] false ≡ parse_loop left name false
parse_loop-name name left (plain h) =
    parse_loop-plain (reverse name) left [] (All-reverse _ name h)
    ∙ ap (λ n. parse_loop left n false) (append-nil (reverse (reverse name)) ∙ reverse-reverse name)
parse_loop-name name left (operator op h e) = rw e (parse_loop-operator op left h)

-- The modules with dots between them.
joined : Text → List Text → Text
joined m [] = m
joined m (n ∷ ns) = m ++ b'.' ∷ joined n ns

prefixed-joined : (m : Text) (ms : List Text) → prefixed (m ∷ ms) ≡ joined m ms ++ b'.' ∷ []
unfolding prefixed joined
prefixed-joined m [] = refl
prefixed-joined m (n ∷ ns) =
    ap (λ s. m ++ b'.' ∷ s) (prefixed-joined n ns)
    ∙ sym (append_assoc m (b'.' ∷ joined n ns) (b'.' ∷ []))

split_dots_last : (m : Text) → NoDot m → split_dots m ≡ m ∷ []
unfolding split_dots
split_dots_last [] h = refl
split_dots_last (c ∷ m) h = ground (arith, split_dots_last m h.1)

split_dots_first : (m s : Text) → NoDot m → split_dots (m ++ b'.' ∷ s) ≡ m ∷ split_dots s
unfolding split_dots
split_dots_first [] s h = refl
split_dots_first (c ∷ m) s h = ground (arith, split_dots_first m s h.1)

split_dots-joined :
    (m : Text) (ms : List Text) → All NoDot (m ∷ ms) → split_dots (joined m ms) ≡ m ∷ ms
unfolding joined
split_dots-joined m [] h = split_dots_last m h.0
split_dots-joined m (n ∷ ns) h =
    split_dots_first m (joined n ns) h.0 ∙ ap (λ ps. m ∷ ps) (split_dots-joined n ns h.1)

parse_loop-prefixed :
    (ms : List Text) (name : Text)
    → All NoDot ms
    → parse_loop (reverse (prefixed ms)) name false ≡ record { module_path = ms; name = name }
unfolding parse_loop
parse_loop-prefixed [] name h = unfold parse_loop prefixed in refl
parse_loop-prefixed (m ∷ ms) name h =
    rw (prefixed-joined m ms, reverse-append (joined m ms) (b'.' ∷ []))
      (rw (parse_loop, reverse-reverse (joined m ms), split_dots-joined m ms h))

-- A qualified name whose modules hold no dot, and whose name is either plain (no dot, no parenthesis)
-- or an operator between parentheses, is read back from its print.
pub parse-to_string :
    (q : QName) → IsQName q.name → All NoDot q.module_path → parse (to_string q) ≡ q
unfolding parse to_string
parse-to_string q hn hm =
    rw (to_string-prefixed q.module_path [], reverse-append (prefixed q.module_path) q.name)
      (parse_loop-name q.name (reverse (prefixed q.module_path)) hn
        ∙ parse_loop-prefixed q.module_path q.name hm)
