-- ===== src/Why3/Name.antt =====
-- why3/src/name.rs: symbols, identifiers, qualified names. An interned `Symbol` is its text: two
-- symbols are equal exactly when their texts are.
pub mod Laws
pub mod Qualified
use creusot.Prelude.{
  ℕ, suc, ◌+◌, ◌%◌, ◌^◌, Bool, true, false, ◌&&◌, List, [], ◌∷◌, ◌++◌, Option, none, some, ◌≡◌,
  refl, ◌==◌, if◌then◌else◌,
}
use creusot.Prelude.Decimal.{Text, codes}
use creusot.Prelude.Texts.{text_eq, contains}

-- The Why3 keywords.
unfoldable pub reserved_str : List Text
reserved_str =
    codes "bool"
    ∷ codes "int"
    ∷ codes "string"
    ∷ codes "real"
    ∷ codes "unit"
    ∷ codes "True"
    ∷ codes "False"
    ∷ codes "current"
    ∷ codes "final"
    ∷ codes "abstract"
    ∷ codes "absurd"
    ∷ codes "alias"
    ∷ codes "any"
    ∷ codes "assert"
    ∷ codes "assume"
    ∷ codes "at"
    ∷ codes "axiom"
    ∷ codes "break"
    ∷ codes "by"
    ∷ codes "check"
    ∷ codes "clone"
    ∷ codes "coinductive"
    ∷ codes "constant"
    ∷ codes "continue"
    ∷ codes "diverges"
    ∷ codes "do"
    ∷ codes "done"
    ∷ codes "else"
    ∷ codes "end"
    ∷ codes "ensures"
    ∷ codes "epsilon"
    ∷ codes "exception"
    ∷ codes "exists"
    ∷ codes "export"
    ∷ codes "false"
    ∷ codes "for"
    ∷ codes "forall"
    ∷ codes "fun"
    ∷ codes "function"
    ∷ codes "ghost"
    ∷ codes "goal"
    ∷ codes "if"
    ∷ codes "import"
    ∷ codes "inductive"
    ∷ codes "invariant"
    ∷ codes "label"
    ∷ codes "lemma"
    ∷ codes "let"
    ∷ codes "match"
    ∷ codes "meta"
    ∷ codes "module"
    ∷ codes "mutable"
    ∷ codes "not"
    ∷ codes "old"
    ∷ codes "predicate"
    ∷ codes "private"
    ∷ codes "raise"
    ∷ codes "reads"
    ∷ codes "rec"
    ∷ codes "requires"
    ∷ codes "return"
    ∷ codes "returns"
    ∷ codes "scope"
    ∷ codes "to"
    ∷ codes "true"
    ∷ codes "try"
    ∷ codes "type"
    ∷ codes "use"
    ∷ codes "val"
    ∷ codes "var"
    ∷ codes "variant"
    ∷ codes "while"
    ∷ codes "with"
    ∷ codes "writes"
    ∷ []

-- The keys of the map `RESERVED`.
unfoldable pub is_reserved : Text → Bool
is_reserved name = contains reserved_str name

-- `RESERVED` maps each keyword `s` to `s'`. A name that is not a keyword is kept.
unfoldable pub to_identifier : Text → Text
to_identifier name = if is_reserved name then name ++ codes "'" else name

pub record Ident : Type 0 where
  pub name : Text
  pub src : Text
  pub id : ℕ

-- The derived `==`.
unfoldable pub ident_eq : Ident → Ident → Bool
ident_eq a b = text_eq a.name b.name && (text_eq a.src b.src && a.id == b.id)

-- `FRESH_COUNTER.fetch_add(1)`: the value before, and the counter after, which wraps around.
unfoldable pub fresh_u64 : ℕ → ℕ × ℕ
fresh_u64 counter = (counter, (counter + 1) % 2 ^ 64)

-- The functions below take the counter and return it behind the identifier.
unfoldable pub fresh : Text → Text → ℕ → Ident × ℕ
unfolding fresh_u64
fresh path name counter =
    (record { name = name; src = path; id = (fresh_u64 counter).0 }, (fresh_u64 counter).1)

unfoldable pub fresh_local : Text → ℕ → Ident × ℕ
fresh_local name counter = fresh [] name counter

unfoldable pub refresh : Ident → ℕ → Ident × ℕ
unfolding fresh_u64
refresh ident counter = (record ident { id = (fresh_u64 counter).0 }, (fresh_u64 counter).1)

unfoldable pub refresh_with : Ident → (Text → Text) → ℕ → Ident × ℕ
unfolding fresh_u64
refresh_with ident f counter =
    (record ident { name = f ident.name; id = (fresh_u64 counter).0 }, (fresh_u64 counter).1)

unfoldable pub stale : Text → Ident
stale name = record { name = name; src = []; id = 0 }

pub record QName : Type 0 where
  pub module_path : List Text
  pub name : Text

pub data Name : Type 0 where
  local : Ident → Option Text → Name
  global : QName → Name

abbrev pub local_name : Ident → Name
local_name ident = local ident none

-- `none` stands for the panic.
unfoldable pub to_qname : Name → Option QName
to_qname (local _ _) = none
to_qname (global q) = some q

unfoldable pub to_ident : Name → Option Ident
to_ident (local i none) = some i
to_ident (local i (some _)) = none
to_ident (global _) = none
