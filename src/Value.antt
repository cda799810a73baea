-- ===== src/Value.antt =====
-- JSON values (`PuppetValue` and the fact values of packages/contracts/src/enc.ts), and what the
-- program uses of the JavaScript engine on numbers, regular expressions and collation.
pub mod Text
pub mod Order
use nexuspuppet.Base.{ℕ, String, Bool, Option}

-- Numbers are IEEE doubles, regular expressions are the operator's own and collation is that of
-- the host's locale data: none of them is in the repository.
pub record Engine : Type 1 where
  pub Num : Type 0
  -- `a === b`, `a < b`, `Number.isFinite(a)`, `String(a)` and `Number(s)`
  pub num_eq : Num → Num → Bool
  pub num_lt : Num → Num → Bool
  pub is_finite : Num → Bool
  pub num_text : Num → String
  pub parse_num : String → Num
  -- the number that an array's `length` is
  pub num_of : ℕ → Num
  -- `new RegExp(pattern).test(text)`, and `none` where the constructor throws
  pub regex_test : String → String → Option Bool
  -- `s.toLowerCase()`
  pub to_lower : String → String
  -- `a.localeCompare(b) < 0`
  pub locale_before : String → String → Bool

mutual
  pub data Value (N : Type 0) : Type 0 where
    null : Value N
    bool : Bool → Value N
    num : N → Value N
    str : String → Value N
    arr : Items N → Value N
    obj : Fields N → Value N

  pub data Items (N : Type 0) : Type 0 where
    nil : Items N
    cons : Value N → Items N → Items N

  -- The own properties of an object, in the order of `Object.entries`.
  pub data Fields (N : Type 0) : Type 0 where
    end : Fields N
    field : String → Value N → Fields N → Fields N
