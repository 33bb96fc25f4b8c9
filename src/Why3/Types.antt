-- ===== src/Why3/Types.antt =====
-- why3/src/ty.rs and the attributes of why3/src/declaration.rs.
use creusot.Prelude.{ℕ, Bool, true, false}
use creusot.Prelude.Decimal.{Text}
use creusot.Why3.Name.{Ident, Name, QName, global}

-- `negsuc n` is -(n + 1).
pub data ℤ : Type 0 where
  pos negsuc : ℕ → ℤ

mutual
  pub data WhyType : Type 0 where
    t_var : Ident → WhyType
    t_constructor : Name → WhyType
    t_app : WhyType → WhyTypes → WhyType
    tuple : WhyTypes → WhyType
    t_fun : WhyType → WhyType → WhyType

  pub data WhyTypes : Type 0 where
    nil : WhyTypes
    cons : WhyType → WhyTypes → WhyTypes

unfoldable pub unit : WhyType
unit = tuple nil

unfoldable pub tapp : WhyType → WhyTypes → WhyType
tapp ty nil = ty
tapp ty (cons t ts) = t_app ty (cons t ts)

unfoldable pub complex : WhyType → Bool
complex (t_var _) = false
complex (tuple _) = false
complex (t_constructor _) = false
complex (t_app _ _) = true
complex (t_fun _ _) = true

unfoldable pub qconstructor : QName → WhyType
qconstructor q = t_constructor (global q)

pub data Attribute : Type 0 where
  attr : Text → Attribute
  named_span : Ident → Attribute
  span : Text → ℕ → ℕ → ℕ → ℕ → Attribute
